-- ===== src/Shm/Exclusion.antt =====
-- The critical sections of 04/main.c and 05/main.c exclude one another, so that every run is one of turns.
use eltex_modul.Common.{
  ℕ, ◌+◌, ◌≤◌, ◌≡◌, refl, sym, ◌∙◌, inl, inr, Bool, true, false, ◌&&◌, Option, none, some, List, [],
  ◌∷◌, ◌++◌, if◌then◌else◌, arith, Bool-cases,
}
use eltex_modul.Common.Int.{ℤ}
use eltex_modul.Shm.{
  Producer, writing, waiting, finished, Consumer, reading, stopped, System, ◌>>=◌, shm_cells,
}
use eltex_modul.Shm.Schedule.{Actor, produces, consumes, turn_of, turns, cleared_system}
use eltex_modul.Shm.Order.{turns-InOrder}
use eltex_modul.Shm.Twins.{same_turns-Twins}
use eltex_modul.Shm.Locking.{
  Point, testing, locking, inside, leaving, gone, Side, Pair, Action, producer_steps,
  consumer_steps, producer_signalled, consumer_signalled, consumer_locked_out, producer_next,
  consumer_next, moved_side, moved_from, is_locking, is_inside, work, signalled, locked_out,
  start_of, act, actions, start_pair,
}

-- Whether a side is between its lock and its unlock.
abbrev pub holds_lock : Point → Bool
holds_lock testing = false
holds_lock locking = false
holds_lock inside = true
holds_lock leaving = true
holds_lock gone = false

abbrev pub held : Point → ℕ
held at = if holds_lock at then 1 else 0

turns_total :
    (sysv : Bool) (mapped : ℕ) (actors : List Actor)
    → shm_cells + 2 ≤ mapped
    → (s : System) × (turns (start_of sysv) mapped cleared_system actors ≡ some s)
turns_total true mapped actors room =
    let (s, e, t) = same_turns-Twins mapped actors room in (record s { log = t.log }, t.run)
turns_total false mapped actors room = let (s, e, o) = turns-InOrder mapped actors room in (s, e)

turns-nil : (start mapped : ℕ) (s : System) → turns start mapped s [] ≡ some s
unfolding turns
turns-nil start mapped s = refl

turns-snoc :
    (start mapped : ℕ) (s : System) (actors : List Actor) (a : Actor)
    → turns start mapped s (actors ++ a ∷ [])
      ≡ (turns start mapped s actors >>= λ t. turn_of start mapped t a)
unfolding turns
turns-snoc start mapped s [] a = last (turn_of start mapped s a)
  where
    last : (r : Option System) → (r >>= λ t. some t) ≡ r
    last none = refl
    last (some t) = refl
turns-snoc start mapped s (b ∷ more) a =
    first (turn_of start mapped s b) (λ t. turns-snoc start mapped t more a)
  where
    first :
        (r : Option System)
        → ((t : System)
            → turns start mapped t (more ++ a ∷ [])
              ≡ (turns start mapped t more >>= λ u. turn_of start mapped u a))
        → (r >>= λ t. turns start mapped t (more ++ a ∷ []))
          ≡ ((r >>= λ t. turns start mapped t more) >>= λ u. turn_of start mapped u a)
    first none h = refl
    first (some t) h = h t

-- The invariant of a run: the semaphore and the holds on it are at most 1 together; and the system has been
-- reached by whole turns.
pub record Excluded (sysv : Bool) (mapped : ℕ) (p : Pair) : Type 0 where
  pub one : p.value + held p.producing.at + held p.consuming.at ≤ 1
  pub actors : List Actor
  pub run : turns (start_of sysv) mapped cleared_system actors ≡ some p.system

-- A step of a side keeps the semaphore and its own hold on it together.
moved_from-held :
    (next : Point) (s : Side) (value : ℕ) (at : Point)
    → s.at ≡ at
    → holds_lock next ≡ false
    → (moved_from next s value at).1 + held (moved_from next s value at).0.at ≡ value + held at
moved_from-held next s value testing e free = ground arith
moved_from-held next s value locking e free = ground arith
moved_from-held next s value inside e free = ground arith
moved_from-held next s value leaving e free = ground arith
moved_from-held next s value gone e free = ground arith

producer_next-free : (q : Producer) → holds_lock (producer_next q) ≡ false
producer_next-free (writing rest) = refl
producer_next-free (waiting at rest) = refl
producer_next-free finished = refl

consumer_next-free : (c : Consumer) → holds_lock (consumer_next c) ≡ false
consumer_next-free (reading at) = refl
consumer_next-free stopped = refl

interrupted-held :
    (sysv : Bool) (retry : Point) (s : Side) (at : Point)
    → s.at ≡ at
    → holds_lock retry ≡ false
    → held (if is_locking at then (if sysv then gone else retry) else at) ≡ held at
interrupted-held sysv retry s testing e free = refl
interrupted-held sysv retry s locking e free = ground arith
interrupted-held sysv retry s inside e free = refl
interrupted-held sysv retry s leaving e free = refl
interrupted-held sysv retry s gone e free = refl

locked_out-held :
    (sysv : Bool) (producer_at : Point) (s : Side) (at : Point)
    → s.at ≡ at
    → held (locked_out sysv producer_at s).at ≤ held at
locked_out-held sysv producer_at s testing e = ground arith
locked_out-held sysv producer_at s locking e = ground arith
locked_out-held sysv producer_at s inside e = ground arith
locked_out-held sysv producer_at s leaving e = ground arith
locked_out-held sysv producer_at s gone e = ground arith

module _ (sysv : Bool) (mapped : ℕ) (room : shm_cells + 2 ≤ mapped) where
  -- The work of a step is a turn, or nothing.
  work-turns :
      (p : Pair) (at : Point) (a : Actor)
      → Excluded sysv mapped p
      → (s : System) × (actors : List Actor) × (work (start_of sysv) mapped p.system a at ≡ some s)
        × (turns (start_of sysv) mapped cleared_system actors ≡ some s)
  work-turns p at a x = elim (Bool-cases (is_inside at)) [
    | inr out ↦ (p.system, x.actors, rw out refl, x.run)
    | inl yes_inside ↦
        let (s, e) = turns_total sysv mapped (x.actors ++ a ∷ []) room in
        let step : (turns (start_of sysv) mapped cleared_system x.actors >>= λ t.
        turn_of (start_of sysv) mapped t a)
            ≡ some s =
          sym (turns-snoc (start_of sysv) mapped cleared_system x.actors a) ∙ e in
        let here : turn_of (start_of sysv) mapped p.system a ≡ some s = rw x.run at step in
        (s, x.actors ++ a ∷ [], rw yes_inside here, e)
  ]

  producer-Excluded :
      (p : Pair) (random : ℕ) (draw : ℕ → ℤ)
      → Excluded sysv mapped p
      → (q : Pair) × (act sysv mapped p (producer_steps random draw) ≡ some q)
        × Excluded sysv mapped q
  unfolding act
  producer-Excluded p random draw x =
      let (s, actors, e, run) = work-turns p p.producing.at (produces random draw) x in
      let next = producer_next s.producer in
      let r = moved_side next p.producing p.value in
      let kept =
        moved_from-held next p.producing p.value p.producing.at refl
          (producer_next-free s.producer) in
      (
        record p { system = s; value = r.1; producing = r.0 },
        rw e refl,
        record { one = omega (arith, x.one, kept); actors = actors; run = run },
      )

  consumer-Excluded :
      (p : Pair)
      → Excluded sysv mapped p
      → (q : Pair) × (act sysv mapped p consumer_steps ≡ some q) × Excluded sysv mapped q
  unfolding act
  consumer-Excluded p x =
      let (s, actors, e, run) = work-turns p p.consuming.at consumes x in
      let next = consumer_next s.consumer in
      let r = moved_side next p.consuming p.value in
      let kept =
        moved_from-held next p.consuming p.value p.consuming.at refl
          (consumer_next-free s.consumer) in
      (
        record p { system = s; value = r.1; consuming = r.0 },
        rw e refl,
        record { one = omega (arith, x.one, kept); actors = actors; run = run },
      )

  signalled-held :
      (interrupts : Bool) (retry : Point) (s : Side)
      → holds_lock retry ≡ false
      → held (signalled sysv interrupts retry s).at ≡ held s.at
  signalled-held true retry s free = interrupted-held sysv retry s s.at refl free
  signalled-held false retry s free = refl

  act-Excluded :
      (p : Pair) (a : Action)
      → Excluded sysv mapped p
      → (q : Pair) × (act sysv mapped p a ≡ some q) × Excluded sysv mapped q
  unfolding act
  act-Excluded p (producer_steps random draw) x = producer-Excluded p random draw x
  act-Excluded p consumer_steps x = consumer-Excluded p x
  act-Excluded p (producer_signalled interrupts) x =
      let next = producer_next p.system.producer in
      let kept =
        signalled-held interrupts next p.producing (producer_next-free p.system.producer) in
      (
        record p { producing = signalled sysv interrupts next p.producing },
        refl,
        record { one = omega (arith, x.one, kept); actors = x.actors; run = x.run },
      )
  act-Excluded p (consumer_signalled interrupts) x =
      let kept = signalled-held interrupts testing p.consuming refl in
      (
        record p { consuming = signalled sysv interrupts testing p.consuming },
        refl,
        record { one = omega (arith, x.one, kept); actors = x.actors; run = x.run },
      )
  act-Excluded p consumer_locked_out x =
      let kept = locked_out-held sysv p.producing.at p.consuming p.consuming.at refl in
      (
        record p { consuming = locked_out sysv p.producing.at p.consuming },
        refl,
        record { one = omega (arith, x.one, kept); actors = x.actors; run = x.run },
      )

  run-Excluded :
      (p : Pair) (as' : List Action)
      → Excluded sysv mapped p
      → (q : Pair) × (actions sysv mapped p as' ≡ some q) × Excluded sysv mapped q
  unfolding actions
  run-Excluded p [] x = (p, refl, x)
  run-Excluded p (a ∷ more) x =
      let (q, e, y) = act-Excluded p a x in let (r, f, z) = run-Excluded q more y in (r, rw e f, z)

not_both : (v : ℕ) (a b : Point) → v + held a + held b ≤ 1 → (holds_lock a && holds_lock b) ≡ false
not_both v a b e = ground arith

-- However the steps and signals of producer and consumer interleave, in 04/main.c and in 05/main.c, with two
-- more cells mapped than the 256 in use: none reaches a cell that is not mapped; the two are never
-- both between lock and unlock; and the cells, the reports and the points of the programs are those of
-- a sequence of whole critical sections, one after the other.
pub actions-exclusive :
    (sysv : Bool) (mapped : ℕ) (steps : List Action)
    → shm_cells + 2 ≤ mapped
    → (p : Pair) × (actions sysv mapped start_pair steps ≡ some p)
      × ((holds_lock p.producing.at && holds_lock p.consuming.at) ≡ false)
      × (actors : List Actor) × (turns (start_of sysv) mapped cleared_system actors ≡ some p.system)
actions-exclusive sysv mapped steps room =
    let (p, e, x) = run-Excluded sysv mapped room start_pair steps (record {
      one = omega arith;
      actors = [];
      run = turns-nil (start_of sysv) mapped cleared_system;
    }) in
    (p, e, not_both p.value p.producing.at p.consuming.at x.one, x.actors, x.run)
