-- ===== src/Shm/Locking.antt =====
-- The semaphore of 04/main.c and 05/main.c, and the flag running of each program.
--
-- A step is what one program does up to its next call on the semaphore or its next test of running. The
-- work in the critical section is a step of its own, between the lock and the unlock. Where the programs
-- differ, `sysv` says which it is: 04 ends with exit when a signal interrupts its lock, or when the
-- semaphore has been removed, and 05 goes round its loop again. Errors of the semaphore that have another
-- reason are left out.
use eltex_modul.Common.{
  ℕ, suc, ◌-◌, Bool, true, false, ◌&&◌, Option, some, List, [], ◌∷◌, ◌==◌, if◌then◌else◌,
}
use eltex_modul.Common.Int.{ℤ}
use eltex_modul.Shm.{
  Producer, writing, waiting, finished, Consumer, reading, stopped, System, ◌>>=◌,
}
use eltex_modul.Shm.Schedule.{Actor, produces, consumes, turn_of, cleared_system}

-- At the test of running, at the lock, in the critical section before and after its work, behind the loop.
pub data Point : Type 0 where
  testing : Point
  locking : Point
  inside : Point
  leaving : Point
  gone : Point

pub record Side : Type 0 where
  pub at : Point
  pub running : Bool

-- `value` is that of the semaphore.
pub record Pair : Type 0 where
  pub system : System
  pub value : ℕ
  pub producing : Side
  pub consuming : Side

-- A side steps, with the random number and the numbers of a block if it is the producer that works; a side
-- gets a signal, which may
-- interrupt its lock; the consumer finds the semaphore removed.
pub data Action : Type 0 where
  producer_steps : ℕ → (ℕ → ℤ) → Action
  consumer_steps : Action
  producer_signalled : Bool → Action
  consumer_signalled : Bool → Action
  consumer_locked_out : Action

-- Where the producer goes on behind its unlock: it waits for its block with no test of running.
abbrev pub producer_next : Producer → Point
producer_next (writing remaining) = testing
producer_next (waiting at remaining) = locking
producer_next finished = gone

abbrev pub consumer_next : Consumer → Point
consumer_next (reading at) = testing
consumer_next stopped = gone

-- The new point and value: sem_lock and sem_unlock, sem_wait and sem_post.
abbrev pub moved_from : Point → Side → ℕ → Point → Side × ℕ
moved_from next s value testing = (record s { at = if s.running then locking else gone }, value)
moved_from next s value locking =
    if value == 0 then (s, value) else (record s { at = inside }, value - 1)
moved_from next s value inside = (record s { at = leaving }, value)
moved_from next s value leaving = (record s { at = next }, suc value)
moved_from next s value gone = (s, value)

abbrev pub moved_side : Point → Side → ℕ → Side × ℕ
moved_side next s value = moved_from next s value s.at

abbrev pub is_inside : Point → Bool
is_inside testing = false
is_inside locking = false
is_inside inside = true
is_inside leaving = false
is_inside gone = false

-- The work that goes with a step.
abbrev pub work : ℕ → ℕ → System → Actor → Point → Option System
work start mapped s actor at = if is_inside at then turn_of start mapped s actor else some s

abbrev pub is_locking : Point → Bool
is_locking testing = false
is_locking locking = true
is_locking inside = false
is_locking leaving = false
is_locking gone = false

abbrev pub is_gone : Point → Bool
is_gone testing = false
is_gone locking = false
is_gone inside = false
is_gone leaving = false
is_gone gone = true

-- Where an interrupted lock leaves a side.
abbrev pub interrupted : Bool → Point → Side → Side
interrupted sysv retry s = record {
  at = if is_locking s.at then (if sysv then gone else retry) else s.at;
  running = false;
}

abbrev pub signalled : Bool → Bool → Point → Side → Side
signalled sysv interrupts retry s =
    if interrupts then interrupted sysv retry s else record s { running = false }

-- Whether the next thing a side does is a call on the semaphore.
abbrev pub is_calling : Point → Bool
is_calling testing = false
is_calling locking = true
is_calling inside = false
is_calling leaving = true
is_calling gone = false

-- When the producer of 04 has ended it may have removed the semaphore: a lock or an unlock of the consumer
-- then ends in exit.
abbrev pub locked_out : Bool → Point → Side → Side
locked_out sysv producer_at s =
    if sysv && (is_gone producer_at && is_calling s.at) then record s { at = gone } else s

abbrev pub start_of : Bool → ℕ
start_of sysv = if sysv then 0 else 2

unfoldable pub act : Bool → ℕ → Pair → Action → Option Pair
act sysv mapped p (producer_steps random draw) =
    work (start_of sysv) mapped p.system (produces random draw) p.producing.at >>= λ s.
    let r = moved_side (producer_next s.producer) p.producing p.value in
    some (record p { system = s; value = r.1; producing = r.0 })
act sysv mapped p consumer_steps =
    work (start_of sysv) mapped p.system consumes p.consuming.at >>= λ s.
    let r = moved_side (consumer_next s.consumer) p.consuming p.value in
    some (record p { system = s; value = r.1; consuming = r.0 })
act sysv mapped p (producer_signalled interrupts) = some (record p {
  producing = signalled sysv interrupts (producer_next p.system.producer) p.producing;
})
act sysv mapped p (consumer_signalled interrupts) =
    some (record p { consuming = signalled sysv interrupts testing p.consuming })
act sysv mapped p consumer_locked_out =
    some (record p { consuming = locked_out sysv p.producing.at p.consuming })

unfoldable pub actions : Bool → ℕ → Pair → List Action → Option Pair
actions sysv mapped p [] = some p
actions sysv mapped p (a ∷ more) = do p' ← act sysv mapped p a; actions sysv mapped p' more

-- The semaphore is free, both programs are before their loops.
abbrev pub start_pair : Pair
start_pair = record {
  system = cleared_system;
  value = 1;
  producing = record { at = testing; running = true };
  consuming = record { at = testing; running = true };
}
