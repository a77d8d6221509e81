-- ===== src/Shm/Reads.antt =====
-- What the consumer of 05/main.c does at each kind of block, and the reports that it owes.
use eltex_modul.Common.{
  ℕ, suc, ◌+◌, ◌≤◌, ◌<◌, ◌≡◌, refl, sym, ap, ◌∙◌, true, false, some, List, [], ◌∷◌, ◌++◌, ltb, leb,
  ◌==◌, arith, length, append_assoc, append-nil,
}
use eltex_modul.Common.Int.{ℤ, pos, negsuc}
use eltex_modul.Shm.{
  Memory, Range, Report, Block, reading, stopped, min_val, max_val, update, widen, handle_from,
  handle_numbers, read_block, posix_read,
}
use eltex_modul.Shm.Cells.{Holds}

abbrev pub full_range : Range
full_range = record { least = min_val; greatest = max_val }

-- The range of a list of numbers.
unfoldable pub range_of : List ℤ → Range → Range
range_of [] r = r
range_of (v ∷ vs) r = range_of vs (widen v r)

pub handle_from-range_of :
    (m : Memory) (i : ℕ) (vs : List ℤ) (r : Range)
    → Holds m i vs
    → handle_from (length vs) i m r ≡ range_of vs r
unfolding handle_from range_of
handle_from-range_of m i [] r h = refl
handle_from-range_of m i (v ∷ vs) r h =
    ap (λ x. handle_from (length vs) (suc i) m (widen x r)) h.0
    ∙ handle_from-range_of m (suc i) vs (widen v r) h.1

-- What is to be printed for a block: nothing if it is empty.
unfoldable pub owed : ℕ → List ℤ → List Report
unfolding range_of
owed at [] = []
owed at (v ∷ vs) =
    record { from = at; to = pos (at + length (v ∷ vs) + 2); range = range_of (v ∷ vs) full_range }
    ∷ []

unfoldable pub reports : List Block → List Report
unfolding owed
reports [] = []
reports (b ∷ bs) = owed b.at b.numbers ++ reports bs

pub reports-append :
    (bs : List Block) (b : Block) → reports (bs ++ b ∷ []) ≡ reports bs ++ owed b.at b.numbers
unfolding reports
reports-append [] b = append-nil (owed b.at b.numbers)
reports-append (c ∷ bs) b =
    ap (λ r. owed c.at c.numbers ++ r) (reports-append bs b)
    ∙ sym (append_assoc (owed c.at c.numbers) (reports bs) (owed b.at b.numbers))

module _ (start mapped : ℕ) (m : Memory) (at : ℕ) (inside : at + 1 < mapped) where
  reach : ltb (at + 1) mapped ≡ true
  reach = ground arith

  pub read-nothing :
      m at ≡ pos 0
      → m (at + 1) ≡ pos 0
      → read_block start mapped m at
        ≡ some (record { memory = m; consumer = reading at; printed = [] })
  unfolding read_block
  read-nothing e f = rw (reach, e, f) refl

  pub read-skip :
      (to : ℕ)
      → m at ≡ pos 0
      → m (at + 1) ≡ pos (suc to)
      → read_block start mapped m at
        ≡ some (record { memory = m; consumer = reading (suc to); printed = [] })
  unfolding read_block
  read-skip to e f =
      let some_next : (suc to == 0) ≡ false = ground arith in rw (reach, e, f) (rw some_next refl)

  pub read-end :
      m at ≡ negsuc 0
      → m (at + 1) ≡ pos 0
      → read_block start mapped m at
        ≡ some (record { memory = m; consumer = stopped; printed = [] })
  unfolding read_block
  read-end e f = rw (reach, e, f) refl

pub read-report :
    (mapped : ℕ) (m : Memory) (at : ℕ) (v : ℤ) (vs : List ℤ)
    → at + 2 + length (v ∷ vs) ≤ mapped
    → m at ≡ pos (length (v ∷ vs))
    → m (at + 1) ≡ pos (at + length (v ∷ vs) + 2)
    → Holds m (at + 2) (v ∷ vs)
    → posix_read mapped m at
      ≡ some (record {
        memory = update m at (pos 0);
        consumer = reading (at + length (v ∷ vs) + 2);
        printed = owed at (v ∷ vs);
      })
unfolding read_block owed handle_numbers
read-report mapped m at v vs room e f h =
    let inside : ltb (at + 1) mapped ≡ true = ground arith in
    let fits : leb (at + 2 + length (v ∷ vs)) mapped ≡ true = ground arith in
    let some_size : (length (v ∷ vs) == 0) ≡ false = ground arith in
    let range = handle_from-range_of m (at + 2) (v ∷ vs) full_range h in
    rw (inside, e, f) (rw (some_size, fits) (rw range refl))
