-- ===== src/Shm/Hanging.antt =====
-- The producer of 05/main.c when the consumer has ended before it has read the last block.
--
-- Its inner loop tests only is_readed, and goes round again when a signal interrupts sem_wait.
use eltex_modul.Common.{
  ℕ, suc, ◌≡◌, refl, sym, ap, ◌∙◌, Bool, true, false, some, List, [], ◌∷◌, if◌then◌else◌, arith,
}
use eltex_modul.Common.Int.{ℤ, pos}
use eltex_modul.Shm.{waiting, System}
use eltex_modul.Shm.Schedule.{Actor, produces, produce, turn_of}
use eltex_modul.Shm.Steps.{check_block-unread}
use eltex_modul.Shm.Locking.{
  Point, testing, locking, inside, leaving, gone, Side, Pair, Action, producer_steps,
  consumer_steps, producer_signalled, consumer_signalled, consumer_locked_out, producer_next,
  consumer_next, moved_side, moved_from, is_locking, is_gone, work, signalled, act, actions,
}

-- The points of the loop that waits for the block.
abbrev pub is_waiting : Point → Bool
is_waiting testing = false
is_waiting locking = true
is_waiting inside = true
is_waiting leaving = true
is_waiting gone = false

-- The block at `at` is not read, the producer waits for it, the consumer has ended.
pub record Hung (at rest size : ℕ) (p : Pair) : Type 0 where
  pub stage : p.system.producer ≡ waiting at rest
  pub unread : p.system.memory at ≡ pos (suc size)
  pub waits : is_waiting p.producing.at ≡ true
  pub ended : p.consuming.at ≡ gone

produce-again :
    (mapped : ℕ) (s : System) (at rest size random : ℕ) (draw : ℕ → ℤ)
    → s.producer ≡ waiting at rest
    → s.memory at ≡ pos (suc size)
    → produce mapped s random draw (waiting at rest) ≡ some s
produce-again mapped s at rest size random draw e f =
    ap (λ q. some (record s { producer = q }))
      (check_block-unread s.memory at rest (suc size) f (omega arith) ∙ sym e)

-- Its step in the critical section leaves the system as it is.
look_again :
    (mapped : ℕ) (s : System) (at rest size random : ℕ) (draw : ℕ → ℤ)
    → s.producer ≡ waiting at rest
    → s.memory at ≡ pos (suc size)
    → turn_of 2 mapped s (produces random draw) ≡ some s
unfolding turn_of
look_again mapped s at rest size random draw e f =
    ap (produce mapped s random draw) e ∙ produce-again mapped s at rest size random draw e f

work-same :
    (mapped : ℕ) (s : System) (a : Actor) (at : Point)
    → turn_of 2 mapped s a ≡ some s
    → work 2 mapped s a at ≡ some s
work-same mapped s a testing e = refl
work-same mapped s a locking e = refl
work-same mapped s a inside e = e
work-same mapped s a leaving e = refl
work-same mapped s a gone e = refl

moved_from-waits :
    (s : Side) (value : ℕ) (at : Point)
    → s.at ≡ at
    → is_waiting at ≡ true
    → is_waiting (moved_from locking s value at).0.at ≡ true
moved_from-waits s value testing e w = cc
moved_from-waits s value locking e w = ground arith
moved_from-waits s value inside e w = refl
moved_from-waits s value leaving e w = refl
moved_from-waits s value gone e w = cc

interrupted-waits :
    (s : Side) (at : Point)
    → s.at ≡ at
    → is_waiting at ≡ true
    → is_waiting (if is_locking at then locking else at) ≡ true
interrupted-waits s testing e w = cc
interrupted-waits s locking e w = refl
interrupted-waits s inside e w = refl
interrupted-waits s leaving e w = refl
interrupted-waits s gone e w = cc

signalled-waits :
    (interrupts : Bool) (s : Side)
    → is_waiting s.at ≡ true
    → is_waiting (signalled false interrupts locking s).at ≡ true
signalled-waits true s w = interrupted-waits s s.at refl w
signalled-waits false s w = w

-- The side that has ended does not move.
moved_side-gone :
    (next : Point) (s : Side) (value : ℕ) → s.at ≡ gone → moved_side next s value ≡ (s, value)
moved_side-gone next s value e = rw e refl

signalled-gone :
    (interrupts : Bool) (s : Side) → s.at ≡ gone → (signalled false interrupts testing s).at ≡ gone
signalled-gone true s e = rw e refl
signalled-gone false s e = e

module _ (mapped at rest size : ℕ) where
  act-Hung :
      (p : Pair) (a : Action)
      → Hung at rest size p
      → (q : Pair) × (act false mapped p a ≡ some q) × (q.system ≡ p.system) × Hung at rest size q
  unfolding act
  act-Hung p (producer_steps random draw) h =
      let e =
        work-same mapped p.system (produces random draw) p.producing.at
          (look_again mapped p.system at rest size random draw h.stage h.unread) in
      let r = moved_side (producer_next p.system.producer) p.producing p.value in
      let f : producer_next p.system.producer ≡ locking = ap producer_next h.stage in
      (
        record p { value = r.1; producing = r.0 },
        rw e refl,
        refl,
        record {
          stage = h.stage;
          unread = h.unread;
          waits = rw f (moved_from-waits p.producing p.value p.producing.at refl h.waits);
          ended = h.ended;
        },
      )
  act-Hung p consumer_steps h =
      let f = moved_side-gone (consumer_next p.system.consumer) p.consuming p.value h.ended in
      (p, rw h.ended refl, refl, h)
  act-Hung p (producer_signalled interrupts) h =
      let f : producer_next p.system.producer ≡ locking = ap producer_next h.stage in
      (
        record p {
          producing = signalled false interrupts (producer_next p.system.producer) p.producing;
        },
        refl,
        refl,
        record {
          stage = h.stage;
          unread = h.unread;
          waits = rw f (signalled-waits interrupts p.producing h.waits);
          ended = h.ended;
        },
      )
  act-Hung p (consumer_signalled interrupts) h = (
    record p { consuming = signalled false interrupts testing p.consuming },
    refl,
    refl,
    record {
      stage = h.stage;
      unread = h.unread;
      waits = h.waits;
      ended = signalled-gone interrupts p.consuming h.ended;
    },
  )
  act-Hung p consumer_locked_out h = (p, refl, refl, h)

  run-Hung :
      (p : Pair) (steps : List Action)
      → Hung at rest size p
      → (q : Pair) × (actions false mapped p steps ≡ some q)
        × (q.system ≡ p.system)
        × Hung at rest size q
  unfolding actions
  run-Hung p [] h = (p, refl, refl, h)
  run-Hung p (a ∷ more) h =
      let (q, e, s, i) = act-Hung p a h in
      let (r, f, t, j) = run-Hung q more i in (r, rw e f, t ∙ s, j)

not_gone : (a : Point) → is_waiting a ≡ true → is_gone a ≡ false
not_gone testing w = refl
not_gone locking w = refl
not_gone inside w = refl
not_gone leaving w = refl
not_gone gone w = cc

-- In 05/main.c, when the producer waits for its block at `at`, which still has its size, and the
-- consumer has ended: then no sequence of steps and signals ends the producer, and none changes
-- a cell, a report or what the producer waits for.
pub actions-hang :
    (mapped at rest size : ℕ) (p : Pair) (steps : List Action)
    → Hung at rest size p
    → (q : Pair) × (actions false mapped p steps ≡ some q)
      × (is_gone q.producing.at ≡ false)
      × (q.system ≡ p.system)
actions-hang mapped at rest size p steps h =
    let (q, e, s, i) = run-Hung mapped at rest size p steps h in
    (q, e, not_gone q.producing.at i.waits, s)
