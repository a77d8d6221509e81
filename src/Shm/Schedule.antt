-- ===== src/Shm/Schedule.antt =====
-- Producer and consumer of 04/main.c and 05/main.c as they take turns in any order: a turn is one critical section.
-- A program that has nothing more to do leaves everything as it is.
use eltex_modul.Common.{ℕ, Option, some, List, [], ◌∷◌, ◌++◌, ltb, if◌then◌else◌}
use eltex_modul.Common.Int.{ℤ, pos}
use eltex_modul.Shm.{
  Producer, writing, waiting, finished, Consumer, reading, stopped, System, Block, ◌>>=◌, shm_cells,
  offset_of, write_block, check_block, read_block,
}
use eltex_modul.Shm.Cells.{numbers_of}

-- The producer, with what rand gives for the size of a block and with the numbers that it writes; or the
-- consumer.
pub data Actor : Type 0 where
  produces : ℕ → (ℕ → ℤ) → Actor
  consumes : Actor

abbrev pub block_of : ℕ → ℕ → (ℕ → ℤ) → List Block
block_of remaining random draw =
    if ltb remaining 2
    then []
    else record { at = offset_of remaining; numbers = numbers_of draw random remaining } ∷ []

abbrev pub produce : ℕ → System → ℕ → (ℕ → ℤ) → Producer → Option System
produce mapped s random draw (writing remaining) = do
  w ← write_block mapped s.memory remaining random draw
  some (record s {
    memory = w.0;
    producer = w.1;
    written = s.written ++ block_of remaining random draw;
  })
produce mapped s random draw (waiting at remaining) =
    some (record s { producer = check_block s.memory at remaining })
produce mapped s random draw finished = some s

abbrev pub consume : ℕ → ℕ → System → Consumer → Option System
consume start mapped s (reading at) = do
  r ← read_block start mapped s.memory at
  some (record s { memory = r.memory; consumer = r.consumer; log = s.log ++ r.printed })
consume start mapped s stopped = some s

unfoldable pub turn_of : ℕ → ℕ → System → Actor → Option System
turn_of start mapped s (produces random draw) = produce mapped s random draw s.producer
turn_of start mapped s consumes = consume start mapped s s.consumer

unfoldable pub turns : ℕ → ℕ → System → List Actor → Option System
turns start mapped s [] = some s
turns start mapped s (a ∷ more) = do s' ← turn_of start mapped s a; turns start mapped s' more

-- The cells are cleared, nothing is written.
abbrev pub cleared_system : System
cleared_system = record {
  memory = λ i. pos 0;
  producer = writing shm_cells;
  consumer = reading 0;
  log = [];
  written = [];
}
