-- ===== src/Shm/Order.antt =====
-- Producer and consumer of 05/main.c, in any order of their critical sections.
use eltex_modul.Common.{
  ℕ, ◌+◌, ◌≤◌, ◌≡◌, refl, ◌∙◌, Option, none, some, List, [], ◌∷◌, ◌++◌, arith, length, append-nil,
}
use eltex_modul.Common.Int.{ℤ}
use eltex_modul.Shm.{finished, stopped, System, Report, ◌>>=◌, shm_cells}
use eltex_modul.Shm.Reads.{owed, reports}
use eltex_modul.Shm.Schedule.{Actor, produces, consumes, turn_of, turns, cleared_system}
use eltex_modul.Shm.Stage.{Stage, idle, late, full, done, empty, ended, ended_late, over}
use eltex_modul.Shm.Steps.{Goes, consume-Goes, produce-Goes}

Goes-then :
    (r : Option System) (k : System → Option System)
    → Goes r
    → ((s : System) → Stage s → Goes (k s))
    → Goes (r >>= k)
Goes-then none k g f = absurd g
Goes-then (some s) k g f = f s g

Stage-stopped :
    (s : System)
    → Stage s
    → s.consumer ≡ stopped
    → (s.producer ≡ finished) × (s.log ≡ reports s.written)
Stage-stopped s (idle rest p c u) e = cc
Stage-stopped s (late p c m u) e = cc
Stage-stopped s (full at rest vs p c u) e = cc
Stage-stopped s (done at rest p c m u) e = cc
Stage-stopped s (empty p c m u) e = cc
Stage-stopped s (ended at fits p c m l) e = cc
Stage-stopped s (ended_late p c m n l) e = cc
Stage-stopped s (over p c l) e = (p, l)

module _ (mapped : ℕ) (room : shm_cells + 2 ≤ mapped) where
  turn_of-Goes : (s : System) (a : Actor) → Stage s → Goes (turn_of 2 mapped s a)
  unfolding turn_of
  turn_of-Goes s (produces random draw) g = produce-Goes mapped room s random draw g
  turn_of-Goes s consumes g = consume-Goes mapped room s g

  -- A system after some turns.
  turns-Goes : (s : System) (actors : List Actor) → Stage s → Goes (turns 2 mapped s actors)
  unfolding turns
  turns-Goes s [] g = g
  turns-Goes s (a ∷ more) g =
      Goes-then (turn_of 2 mapped s a) (λ s'. turns 2 mapped s' more) (turn_of-Goes s a g)
        (λ s' g'. turns-Goes s' more g')

cleared-Stage : Stage cleared_system
unfolding reports
cleared-Stage =
    idle shm_cells refl refl (record { rest_fits = omega arith; clean = λ j le. refl; log = refl })

-- The consumer's reports, and the at most one that it still owes.
pub record InOrder (s : System) : Type 0 where
  pub pending : List Report
  pub due : s.log ++ pending ≡ reports s.written
  pub few : length pending ≤ 1

length-owed : (at : ℕ) (vs : List ℤ) → length (owed at vs) ≤ 1
unfolding owed
length-owed at [] = omega arith
length-owed at (v ∷ vs) = omega arith

all_reported : (s : System) → s.log ≡ reports s.written → InOrder s
all_reported s l = record { pending = []; due = append-nil s.log ∙ l; few = omega arith }

Stage-InOrder : (s : System) → Stage s → InOrder s
Stage-InOrder s (idle rest p c u) = all_reported s u.log
Stage-InOrder s (late p c e u) = all_reported s u.log
Stage-InOrder s (full at rest vs p c u) = record {
  pending = owed at vs;
  due = u.log;
  few = length-owed at vs;
}
Stage-InOrder s (done at rest p c e u) = all_reported s u.log
Stage-InOrder s (empty p c e u) = all_reported s u.log
Stage-InOrder s (ended at fits p c e l) = all_reported s l
Stage-InOrder s (ended_late p c e m l) = all_reported s l
Stage-InOrder s (over p c l) = all_reported s l

Goes-result : (r : Option System) → Goes r → (s : System) × (r ≡ some s) × Stage s
Goes-result none g = absurd g
Goes-result (some s) g = (s, refl, g)

-- From cleared cells on, with two more cells mapped than the 256 in use, the critical sections of producer
-- and consumer may take turns in any order and for any numbers drawn: none reaches a cell that is
-- not mapped, and what the consumer has printed are the reports due for the blocks written, in their
-- order, with at most the last one still to come; none is missed, and none printed twice.
pub turns-InOrder :
    (mapped : ℕ) (actors : List Actor)
    → shm_cells + 2 ≤ mapped
    → (s : System) × (turns 2 mapped cleared_system actors ≡ some s) × InOrder s
turns-InOrder mapped actors room =
    let (s, e, g) =
      Goes-result (turns 2 mapped cleared_system actors)
        (turns-Goes mapped room cleared_system actors cleared-Stage) in
    (s, e, Stage-InOrder s g)

-- When the consumer has read the end mark, in whatever order the two have taken turns, the producer has
-- come to its end too, and every block that was written has been reported, once and in order.
pub stopped-reports :
    (mapped : ℕ) (actors : List Actor) (s : System)
    → shm_cells + 2 ≤ mapped
    → turns 2 mapped cleared_system actors ≡ some s
    → s.consumer ≡ stopped
    → (s.producer ≡ finished) × (s.log ≡ reports s.written)
stopped-reports mapped actors s room e c =
    let g : Stage s = rw e at (turns-Goes mapped room cleared_system actors cleared-Stage) in
    Stage-stopped s g c
