-- ===== src/Shm/Turn.antt =====
-- One turn of 05/main.c: the producer writes a block, the consumer reports it, the producer goes on.
use eltex_modul.Common.{
  ℕ, zero, suc, ◌+◌, ◌-◌, ◌≤◌, ◌<◌, ◌≡◌, refl, ap, ◌∙◌, false, none, some, List, [], ◌∷◌, ◌==◌,
  arith, length,
}
use eltex_modul.Common.Int.{ℤ, pos}
use eltex_modul.Shm.{
  Memory, writing, waiting, reading, shm_cells, offset_of, block_size, update, write_block, put_end,
  check_block, posix_read,
}
use eltex_modul.Shm.Cells.{Written, numbers_of, length-draws, write_block-Written, block_size-fits}
use eltex_modul.Shm.Reads.{owed, read-report}

-- A block that has been written is reported and its size is cleared.
pub read-Written :
    (mapped : ℕ) (m m' : Memory) (at : ℕ) (vs : List ℤ)
    → 0 < length vs
    → at + 2 + length vs ≤ mapped
    → Written m at vs m'
    → posix_read mapped m' at
      ≡ some (record {
        memory = update m' at (pos 0);
        consumer = reading (at + length vs + 2);
        printed = owed at vs;
      })
read-Written mapped m m' at [] full room w = absurd (omega arith)
read-Written mapped m m' at (v ∷ vs) full room w =
    read-report mapped m' at v vs room w.size w.link w.body

-- A turn of 05/main.c for a block of at least one number: `remaining` cells are left.
pub record Turn (mapped : ℕ) (m : Memory) (remaining random : ℕ) (draw : ℕ → ℤ) : Type 0 where
  pub after_write : Memory
  pub rest : ℕ
  pub write :
      write_block mapped m remaining random draw
      ≡ some (after_write, waiting (offset_of remaining) rest)
  pub smaller : rest < remaining
  pub unread :
      check_block after_write (offset_of remaining) rest ≡ waiting (offset_of remaining) rest
  pub read :
      posix_read mapped after_write (offset_of remaining)
      ≡ some (record {
        memory = update after_write (offset_of remaining) (pos 0);
        consumer = reading (offset_of rest);
        printed = owed (offset_of remaining) (numbers_of draw random remaining);
      })
  pub go_on :
      check_block (update after_write (offset_of remaining) (pos 0)) (offset_of remaining) rest
      ≡ writing rest

-- With more than two and at most all cells left, a turn of 05/main.c goes through: the producer writes
-- a block and waits while it is unread; the consumer that stands at the block prints the least and
-- greatest number as they are folded over exactly the numbers drawn, clears the size and moves to
-- where the next block will be; then the producer goes on with fewer cells left.
pub turn :
    (mapped : ℕ) (m : Memory) (remaining random : ℕ) (draw : ℕ → ℤ)
    → 2 < remaining
    → remaining ≤ shm_cells
    → shm_cells ≤ mapped
    → Turn mapped m remaining random draw
unfolding check_block
turn mapped m remaining random draw more fits room =
    let n = block_size random remaining in
    let small = block_size-fits random remaining (omega arith) in
    let some_size : 0 < n = ground arith in
    let len = length-draws draw 0 n in
    let (m', e, w) = write_block-Written mapped m remaining random draw (omega arith) fits room in
    let size : (length (numbers_of draw random remaining) == 0) ≡ false = ground arith in
    record {
      after_write = m';
      rest = remaining - n - 2;
      write = e;
      smaller = omega arith;
      unread = rw (w.size) (rw size refl);
      read =
          read-Written mapped m m' (offset_of remaining) (numbers_of draw random remaining)
            (omega arith) (omega arith) w
          ∙ ap
              (λ to. some (record {
                memory = update m' (offset_of remaining) (pos 0);
                consumer = reading to;
                printed = owed (offset_of remaining) (numbers_of draw random remaining);
              }))
              (omega (arith, len));
      go_on = ground arith;
    }

-- The programs map exactly `shm_cells` cells. When the producer has used them all, or all but one, it
-- cannot write the end mark, for any numbers drawn: one of its two cells is not mapped.
pub write_block-outside :
    (m : Memory) (remaining random : ℕ) (draw : ℕ → ℤ)
    → remaining < 2
    → write_block shm_cells m remaining random draw ≡ none
unfolding write_block put_end
write_block-outside m zero random draw h = refl
write_block-outside m (suc zero) random draw h = refl
write_block-outside m (suc (suc r)) random draw h = absurd (omega arith)
