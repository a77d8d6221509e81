-- ===== src/Shm.antt =====
-- Producer and consumer over shared memory: 04/main.c (System V) and 05/main.c (POSIX).
--
-- The two programs run one algorithm. They differ in how the operating system is asked for the memory
-- and the semaphore, in the numbers that the producer writes, sysv_number and posix_number of what rand
-- gives, and in one argument: 04 calls
-- `handle_numbers(size, ptr, ...)` and 05 `handle_numbers(size, ptr + 2, ...)`. Here that offset is
-- the parameter `start`; `draw` is the numbers written, whichever of the two they are. The shared memory is a function from cell numbers to ints, of which the first
-- `mapped` can be reached; `none` is an access to another cell. A critical section, from the lock to
-- the unlock, is one step here; the semaphore, the flag `running` and the signal are in Shm/Locking.
pub mod Cells
pub mod Ending
pub mod Exclusion
pub mod Extremes
pub mod Hanging
pub mod Locking
pub mod Order
pub mod Reads
pub mod Roles
pub mod Schedule
pub mod Shifted
pub mod Stage
pub mod Steps
mod Tests
pub mod Turn
pub mod Twins
use eltex_modul.Common.{
  ℕ, zero, suc, ◌+◌, ◌-◌, ◌*◌, ◌%◌, ◌/◌, ◌^◌, Bool, true, false, ◌&&◌, not, Option, none, some,
  List, [], ◌∷◌, ◌++◌, if◌then◌else◌, ltb, leb, ◌==◌,
}
use eltex_modul.Common.Int.{ℤ, pos, negsuc, ltb_ℤ, ◌==ℤ◌, ◌-ℤ◌}

abbrev pub Memory : Type 0
Memory = ℕ → ℤ

-- SHM_SIZE / sizeof(int).
abbrev pub shm_cells : ℕ
shm_cells = 1024 / 4

-- MAX_VAL and MIN_VAL, the starting points of the search: the least and the greatest int.
abbrev pub max_val : ℤ
max_val = negsuc (2 ^ 31 - 1)

abbrev pub min_val : ℤ
min_val = pos (2 ^ 31 - 1)

pub record Range : Type 0 where
  pub least : ℤ
  pub greatest : ℤ

-- One round of the loop of `handle_numbers`.
unfoldable pub widen : ℤ → Range → Range
widen x r = record {
  greatest = if ltb_ℤ r.greatest x then x else r.greatest;
  least = if ltb_ℤ x r.least then x else r.least;
}

-- The rest of the loop, over the `n` cells from `i` on.
unfoldable pub handle_from : ℕ → ℕ → Memory → Range → Range
unfolding widen
handle_from zero i data' r = r
handle_from (suc n) i data' r = handle_from n (suc i) data' (widen (data' i) r)

-- The number of rounds for an int: none if it is negative.
abbrev pub rounds : ℤ → ℕ
rounds (pos n) = n
rounds (negsuc n) = 0

-- The pointers are never NULL where it is called.
unfoldable pub handle_numbers : ℤ → ℕ → Memory → Range
unfolding handle_from
handle_numbers size i data' =
    handle_from (rounds size) i data' (record { least = min_val; greatest = max_val })

abbrev pub update : Memory → ℕ → ℤ → Memory
update m i v j = if i == j then v else m j

abbrev pub store : ℕ → Memory → ℕ → ℤ → Option Memory
store mapped m i v = if ltb i mapped then some (update m i v) else none

-- The loop that fills a block with the numbers that are written, one after the other.
unfoldable pub fill : ℕ → Memory → ℕ → List ℤ → Option Memory
fill mapped m i [] = some m
fill mapped m i (v ∷ vs) = elim (store mapped m i v) [
  | none ↦ none
  | some m' ↦ fill mapped m' (suc i) vs
]

-- What the producers of 04/main.c and of 05/main.c write into a cell, by what `rand` gives.
unfoldable pub sysv_number : ℕ → ℤ
sysv_number random = pos random

unfoldable pub posix_number : ℕ → ℤ
posix_number random = pos (random % 20001) -ℤ pos 10000

-- The numbers of a block of `n`.
unfoldable pub draws : (ℕ → ℤ) → ℕ → ℕ → List ℤ
draws draw k zero = []
draws draw k (suc n) = draw k ∷ draws draw (suc k) n

infixl 5 ◌>>=◌
abbrev pub ◌>>=◌ {ℓ κ} : {A : Type ℓ} {B : Type κ} → Option A → (A → Option B) → Option B
none >>= f = none
some a >>= f = f a

-- What the producer is about to do: write the next block with so many cells left, wait for the block
-- at an offset to be read, or nothing more.
pub data Producer : Type 0 where
  writing : ℕ → Producer
  waiting : ℕ → ℕ → Producer
  finished : Producer

-- What the consumer is about to do: read the block at an offset, or nothing more.
pub data Consumer : Type 0 where
  reading : ℕ → Consumer
  stopped : Consumer

-- What the consumer prints for a block.
pub record Report : Type 0 where
  pub from : ℕ
  pub to : ℤ
  pub range : Range

-- A block that the producer has written: where, and its numbers.
pub record Block : Type 0 where
  pub at : ℕ
  pub numbers : List ℤ

-- `log` is what the consumer has printed. `written` is no state of the programs: it is the history of
-- the blocks, by which `log` is measured.
pub record System : Type 0 where
  pub memory : Memory
  pub producer : Producer
  pub consumer : Consumer
  pub log : List Report
  pub written : List Block

abbrev pub offset_of : ℕ → ℕ
offset_of remaining = shm_cells - remaining

-- `random % (SHM_SIZE / sizeof(int) / 5) + 2 + 1`.
abbrev pub rand_val : ℕ → ℕ
rand_val random = random % (shm_cells / 5) + 2 + 1

abbrev pub block_size : ℕ → ℕ → ℕ
block_size random remaining =
    (if ltb (rand_val random) remaining then rand_val random else remaining) - 2

-- The end mark.
unfoldable pub put_end : ℕ → Memory → ℕ → Option Memory
put_end mapped m at = do m₁ ← store mapped m at (negsuc 0); store mapped m₁ (at + 1) (pos 0)

-- The size, the offset of the next block, the numbers.
unfoldable pub put_block : ℕ → Memory → ℕ → ℕ → List ℤ → Option Memory
unfolding fill
put_block mapped m at n numbers = do
  m₁ ← store mapped m at (pos n)
  m₂ ← store mapped m₁ (at + 1) (pos (at + n + 2))
  fill mapped m₂ (at + 2) numbers

-- The critical section that writes a block, or the end mark when fewer than two cells are left.
unfoldable pub write_block : ℕ → Memory → ℕ → ℕ → (ℕ → ℤ) → Option (Memory × Producer)
unfolding put_end put_block draws
write_block mapped m remaining random draw =
    let at = offset_of remaining in
    let n = block_size random remaining in
    if ltb remaining 2 then (do m' ← put_end mapped m at; some (m', finished)) else (do
      m' ← put_block mapped m at n (draws draw 0 n)
      some (m', waiting at (remaining - n - 2)))

-- The critical section that looks whether the block has been read.
unfoldable pub check_block : Memory → ℕ → ℕ → Producer
check_block m at remaining = if m at ==ℤ pos 0 then writing remaining else waiting at remaining

-- A pointer moves by an int: one that leaves the memory to the left is not followed.
abbrev pub next_offset : ℤ → Option ℕ
next_offset (pos n) = some n
next_offset (negsuc n) = none

abbrev pub guarded {ℓ} : {A : Type ℓ} → Bool → A → Option A
guarded reachable a = if reachable then some a else none

-- What one critical section of the consumer changes.
pub record Read : Type 0 where
  pub memory : Memory
  pub consumer : Consumer
  pub printed : List Report

abbrev pub is_end : ℤ → ℤ → Bool
is_end size next = (size ==ℤ negsuc 0) && (next ==ℤ pos 0)

-- The critical section of the consumer at the block at `at`.
unfoldable pub read_block : ℕ → ℕ → Memory → ℕ → Option Read
unfolding handle_numbers
read_block start mapped m at =
    let size = m at in
    let next = m (at + 1) in
    if not (ltb (at + 1) mapped)
    then none
    else if is_end size next
    then some (record { memory = m; consumer = stopped; printed = [] })
    else if (size ==ℤ pos 0) && not (next ==ℤ pos 0)
    then (do
      to ← next_offset next
      some (record { memory = m; consumer = reading to; printed = [] }))
    else if not (size ==ℤ pos 0)
    then (do
      range ← guarded (leb (at + start + rounds size) mapped) (handle_numbers size (at + start) m)
      to ← next_offset next
      some (record {
        memory = update m at (pos 0);
        consumer = reading to;
        printed = record { from = at; to = next; range = range } ∷ [];
      }))
    else some (record { memory = m; consumer = reading at; printed = [] })

-- The consumer of 04/main.c gives `ptr` to `handle_numbers`, that of 05/main.c `ptr + 2`.
abbrev pub sysv_read : ℕ → Memory → ℕ → Option Read
sysv_read = read_block 0

abbrev pub posix_read : ℕ → Memory → ℕ → Option Read
posix_read = read_block 2
