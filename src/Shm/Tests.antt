-- ===== src/Shm/Tests.antt =====
-- Blocks in a small memory, and the theorems of the shared memory programs at them.
use eltex_modul.Common.{◌≡◌, refl, none, some, Option, List, [], ◌∷◌, ◌++◌, arith}
use eltex_modul.Common.Int.{ℤ, pos, ◌≤ℤ◌, ◌-ℤ◌}
use eltex_modul.Shm.{
  System, Memory, put_block, put_end, fill, draws, check_block, read_block, Range, reading, update,
  handle_numbers, sysv_read, write_block, handle_from, widen,
}
use eltex_modul.Shm.Cells.{Written}
use eltex_modul.Shm.Extremes.{Extremes, AllInt, handle_numbers-Extremes}
use eltex_modul.Shm.Schedule.{Actor, produces, consumes, turns, turn_of, cleared_system}
use eltex_modul.Shm.Order.{InOrder, turns-InOrder}
use eltex_modul.Shm.Shifted.{sysv_read-size}
use eltex_modul.Common.{ℕ, map, replicate, true, false, ◌&&◌}
use eltex_modul.Shm.{waiting, sysv_number, posix_number}
use eltex_modul.Shm.Twins.{
  Twin, Both, both_produce, both_consume, sysv_turn, posix_turn, turns-Twins,
}
use eltex_modul.Shm.Locking.{
  locking, gone, act, Pair, Action, producer_steps, consumer_steps, producer_signalled,
  consumer_signalled, is_gone, start_of, actions, start_pair,
}
use eltex_modul.Shm.Exclusion.{holds_lock, actions-exclusive}
use eltex_modul.Shm.Hanging.{actions-hang}
use eltex_modul.Shm.Roles.{
  Kernel, Answers, quit, producing, consuming, start_consumer, make_segment, start_producer,
  start_program, end_producer, any_producing, start-producer, start-left_behind,
}
use eltex_modul.Shm.Locking.{start_pair}

abbrev cleared : Memory
cleared = λ i. pos 0

abbrev three : List ℤ
three = pos 40 ∷ pos 7 ∷ pos 30 ∷ []

-- The cells 2 to 4 hold the numbers.
abbrev filled : Memory
filled = update (update (update cleared 2 (pos 40)) 3 (pos 7)) 4 (pos 30)

run : handle_numbers (pos 3) 2 filled ≡ record { least = pos 7; greatest = pos 40 }
unfolding handle_numbers handle_from widen
run = refl

-- With the pointer to a block of size 3 the least number of 04/main.c is that size.
run_sysv :
    handle_numbers (pos 3) 0 (update filled 0 (pos 3)) ≡ record { least = pos 0; greatest = pos 40 }
unfolding handle_numbers handle_from widen
run_sysv = refl

three-AllInt : AllInt three
three-AllInt =
    ((omega arith, omega arith), ((omega arith, omega arith), ((omega arith, omega arith), tt)))

handle_numbers_example : Extremes three (handle_numbers (pos 3) 2 filled)
handle_numbers_example =
    handle_numbers-Extremes filled 2 three (refl, (refl, (refl, tt))) three-AllInt (omega arith)

abbrev block : Memory
block = update (update filled 0 (pos 3)) 1 (pos 5)

block-Written : Written cleared 0 three block
block-Written = record {
  size = refl;
  link = refl;
  body = (refl, (refl, (refl, tt)));
  behind = λ j le. ground arith;
}

shifted_example :
    (range : Range) × (sysv_read 1024 block 0
      ≡ some (record {
        memory = update block 0 (pos 0);
        consumer = reading 5;
        printed = record { from = 0; to = pos 5; range = range } ∷ [];
      }))
    × (range.least ≤ℤ pos 3)
    × (pos 3 ≤ℤ range.greatest)
shifted_example =
    sysv_read-size 1024 cleared block 0 (pos 40) (pos 7 ∷ pos 30 ∷ []) (omega arith) block-Written

-- Two blocks: both programs wait for one another, and the consumer is one block behind at the end.
abbrev some_turns : List Actor
some_turns =
    consumes
    ∷ produces 0 (λ i. pos 7)
    ∷ produces 5 (λ i. pos 9)
    ∷ consumes
    ∷ consumes
    ∷ produces 0 (λ i. pos 7)
    ∷ produces 1 (λ i. pos 9)
    ∷ []

InOrder_example : (s : System) × (turns 2 1024 cleared_system some_turns ≡ some s) × InOrder s
InOrder_example = turns-InOrder 1024 some_turns (omega arith)

-- Five blocks fill the cells, then come the end mark and its reader, by single steps: at the test, at
-- the lock, the work and the unlock.
abbrev works : Action → ℕ → List Action
works step n = replicate n step

abbrev block_steps : List Action
block_steps =
    works (producer_steps 50 (λ i. pos 7)) 4
    ++ works consumer_steps 4
    ++ works (producer_steps 0 (λ i. pos 7)) 3

abbrev all_steps : List Action
all_steps =
    block_steps
    ++ block_steps
    ++ block_steps
    ++ block_steps
    ++ block_steps
    ++ works (producer_steps 0 (λ i. pos 7)) 4
    ++ works consumer_steps 4

unfoldable pair_of : Option Pair → Pair
pair_of none = start_pair
pair_of (some p) = p

abbrev last_pair : Pair
unfolding pair_of actions act turn_of write_block put_block put_end fill draws check_block
    read_block handle_numbers handle_from widen
last_pair = pair_of (actions false 258 start_pair all_steps)

-- rand gives 04 the numbers that 05 makes of 10007 and 10009.
abbrev both_turns : List Both
both_turns =
    both_consume
    ∷ both_produce 0 (λ i. 7) (λ i. 10007)
    ∷ both_consume
    ∷ both_produce 1 (λ i. 9) (λ i. 10009)
    ∷ both_produce 2 (λ i. 9) (λ i. 30010)
    ∷ []

Twins_example :
    (s : System) × (turns 2 1024 cleared_system (map posix_turn both_turns) ≡ some s)
    × Twin (turns 0 1024 cleared_system (map sysv_turn both_turns)) s
unfolding sysv_number posix_number ◌-ℤ◌
Twins_example =
    turns-Twins 1024 both_turns (omega arith) ((λ k. refl), ((λ k. refl), ((λ k. refl), tt)))

-- The producer takes the semaphore, the consumer waits for it and is interrupted by a signal.
abbrev some_actions : List Action
some_actions =
    producer_steps 0 (λ i. pos 7)
    ∷ producer_steps 0 (λ i. pos 7)
    ∷ consumer_steps
    ∷ consumer_steps
    ∷ producer_steps 0 (λ i. pos 7)
    ∷ consumer_signalled true
    ∷ producer_steps 0 (λ i. pos 7)
    ∷ consumer_steps
    ∷ []

exclusive_example :
    (p : Pair) × (actions true 1024 start_pair some_actions ≡ some p)
    × ((holds_lock p.producing.at && holds_lock p.consuming.at) ≡ false)
    × (actors : List Actor) × (turns (start_of true) 1024 cleared_system actors ≡ some p.system)
exclusive_example = actions-exclusive true 1024 some_actions (omega arith)

-- The consumer has got a signal before it has read the block at 0.
abbrev hung_pair : Pair
hung_pair = record start_pair {
  system = record cleared_system { memory = block; producer = waiting 0 251 };
  producing = record { at = locking; running = true };
  consuming = record { at = gone; running = false };
}

hang_example :
    (q : Pair) × (actions false 1024 hung_pair (producer_signalled true ∷ some_actions) ≡ some q)
    × (is_gone q.producing.at ≡ false)
    × (q.system ≡ hung_pair.system)
hang_example =
    actions-hang 1024 0 251 2 hung_pair (producer_signalled true ∷ some_actions)
      (record { stage = refl; unread = refl; waits = refl; ended = refl })

abbrev all_work : Answers
all_work = record {
  makes_semaphore = true;
  opens_semaphore = true;
  sets_value = true;
  makes_segment = true;
  opens_segment = true;
  sizes_segment = true;
  maps_segment = true;
  removes_segment = true;
  removes_semaphore = true;
}

abbrev no_objects : Kernel
no_objects = record { semaphore = none; segment = none }

abbrev both_objects : Kernel
both_objects = record { semaphore = some 1; segment = some cleared }

second_consumes : start_program true all_work both_objects ≡ consuming both_objects
unfolding start_program start_consumer
second_consumes = refl

first_produces : start_program false all_work no_objects ≡ producing both_objects
unfolding start_program start_producer make_segment
first_produces = refl

producer_example :
    (both_objects.semaphore ≡ some start_pair.value)
    × (both_objects.segment ≡ some start_pair.system.memory)
    × (any_producing false both_objects (all_work ∷ all_work ∷ []) ≡ false)
    × (end_producer all_work both_objects ≡ no_objects)
producer_example =
    start-producer false all_work all_work no_objects both_objects (all_work ∷ all_work ∷ [])
      first_produces refl refl

-- The segment of an earlier run is still there.
abbrev old_segment : Kernel
old_segment = record { semaphore = none; segment = some block }

stale_example :
    (start_program true all_work old_segment ≡ quit (record old_segment { semaphore = some 1 }))
    × (any_producing true (record old_segment { semaphore = some 1 }) (all_work ∷ []) ≡ false)
stale_example = start-left_behind true all_work old_segment (all_work ∷ []) refl refl refl refl
