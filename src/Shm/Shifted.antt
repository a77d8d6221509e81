-- ===== src/Shm/Shifted.antt =====
-- What 04/main.c reports for a block, with the pointer to the block where the numbers are meant.
use eltex_modul.Common.{
  ℕ, ◌+◌, ◌≤◌, ◌≡◌, refl, ap, ◌∙◌, true, false, some, List, [], ◌∷◌, ltb, leb, ◌==◌, arith, length,
}
use eltex_modul.Common.Int.{ℤ, pos, ◌≤ℤ◌}
use eltex_modul.Shm.{Memory, Range, reading, update, read_block, sysv_read, handle_numbers}
use eltex_modul.Shm.Cells.{Written}
use eltex_modul.Shm.Extremes.{handle_numbers-first}

le_right : {a b : ℤ} (x : ℤ) → a ≡ b → x ≤ℤ a → x ≤ℤ b
le_right x e h = rw (← e) h

le_left : {a b : ℤ} (x : ℤ) → a ≡ b → a ≤ℤ x → b ≤ℤ x
le_left x e h = rw (← e) h

-- 04/main.c, on a block of at least one number that the producer has written within the mapped cells:
-- the consumer takes the block, clears its size and moves on as meant, and prints one report. But the
-- range in it is that of another list: it always holds the size of the block, also when all
-- the numbers lie on one side of it.
pub sysv_read-size :
    (mapped : ℕ) (m m' : Memory) (at : ℕ) (v : ℤ) (vs : List ℤ)
    → at + 2 + length (v ∷ vs) ≤ mapped
    → Written m at (v ∷ vs) m'
    → (range : Range) × (sysv_read mapped m' at
        ≡ some (record {
          memory = update m' at (pos 0);
          consumer = reading (at + length (v ∷ vs) + 2);
          printed = record { from = at; to = pos (at + length (v ∷ vs) + 2); range = range } ∷ [];
        }))
      × (range.least ≤ℤ pos (length (v ∷ vs)))
      × (pos (length (v ∷ vs)) ≤ℤ range.greatest)
unfolding read_block
sysv_read-size mapped m m' at v vs room w =
    let inside : ltb (at + 1) mapped ≡ true = ground arith in
    let fits : leb (at + 0 + length (v ∷ vs)) mapped ≡ true = ground arith in
    let some_size : (length (v ∷ vs) == 0) ≡ false = ground arith in
    let range = handle_numbers (pos (length (v ∷ vs))) (at + 0) m' in
    let first = handle_numbers-first m' (at + 0) (length vs) in
    let here : m' (at + 0) ≡ pos (length (v ∷ vs)) = ap m' (omega arith) ∙ w.size in
    (
      range,
      rw (inside, w.size, w.link) (rw (some_size, fits) refl),
      le_right range.least here first.0,
      le_left range.greatest here first.1,
    )
