-- ===== src/Shm/Cells.antt =====
-- What the producer of 04/main.c and 05/main.c writes into the shared cells.
use eltex_modul.Common.{
  ℕ, zero, suc, ◌+◌, ◌-◌, ◌≤◌, ◌<◌, ◌≡◌, refl, sym, ap, ◌∙◌, false, some, List, [], ◌∷◌, ltb, arith,
  length,
}
use eltex_modul.Common.Int.{ℤ, pos}
use eltex_modul.Shm.{
  Memory, update, store, fill, draws, shm_cells, offset_of, block_size, write_block, put_block,
  waiting,
}

-- The cells from `i` on hold the numbers.
abbrev pub Holds : Memory → ℕ → List ℤ → Type 0
Holds m i [] = Unit {0}
Holds m i (v ∷ vs) = (m i ≡ v) × Holds m (suc i) vs

pub record Filled (m : Memory) (i : ℕ) (vs : List ℤ) (m' : Memory) : Type 0 where
  pub holds : Holds m' i vs
  pub before : (j : ℕ) → j < i → m' j ≡ m j
  pub behind : (j : ℕ) → i + length vs ≤ j → m' j ≡ m j

pub store-some :
    (mapped : ℕ) (m : Memory) (i : ℕ) (v : ℤ)
    → i < mapped
    → store mapped m i v ≡ some (update m i v)
store-some mapped m i v h = ground arith

pub fill-Filled :
    (mapped : ℕ) (m : Memory) (i : ℕ) (vs : List ℤ)
    → i + length vs ≤ mapped
    → (m' : Memory) × (fill mapped m i vs ≡ some m') × Filled m i vs m'
unfolding fill
fill-Filled mapped m i [] h =
    (m, refl, record { holds = tt; before = λ j lt. refl; behind = λ j le. refl })
fill-Filled mapped m i (v ∷ vs) h =
    let (m', e, f) = fill-Filled mapped (update m i v) (suc i) vs (omega arith) in
    (
      m',
      rw (store-some mapped m i v (omega arith), fill) e,
      record {
        holds = (f.before i (omega arith) ∙ ground arith, f.holds);
        before = λ j lt. f.before j (omega arith) ∙ ground arith;
        behind = λ j le. f.behind j (omega arith) ∙ ground arith;
      },
    )

pub length-draws : (draw : ℕ → ℤ) (k n : ℕ) → length (draws draw k n) ≡ n
unfolding draws
length-draws draw k zero = refl
length-draws draw k (suc n) = ap suc (length-draws draw (suc k) n)

-- A block of `vs` at `at` in the memory `m'`; from its end on the memory is `m`.
pub record Written (m : Memory) (at : ℕ) (vs : List ℤ) (m' : Memory) : Type 0 where
  pub size : m' at ≡ pos (length vs)
  pub link : m' (at + 1) ≡ pos (at + length vs + 2)
  pub body : Holds m' (at + 2) vs
  pub behind : (j : ℕ) → at + length vs + 2 ≤ j → m' j ≡ m j

pub put_block-Written :
    (mapped : ℕ) (m : Memory) (at n : ℕ) (vs : List ℤ)
    → n ≡ length vs
    → at + n + 2 ≤ mapped
    → (m' : Memory) × (put_block mapped m at n vs ≡ some m') × Written m at vs m'
unfolding put_block
put_block-Written mapped m at n vs size room =
    let m₁ = update m at (pos n) in
    let m₂ = update m₁ (at + 1) (pos (at + n + 2)) in
    let (m', e, f) = fill-Filled mapped m₂ (at + 2) vs (omega arith) in
    (
      m',
      rw
          (
            store-some mapped m at (pos n) (omega arith),
            store-some mapped m₁ (at + 1) (pos (at + n + 2)) (omega arith),
          )
          e,
      record {
        size = f.before at (omega arith) ∙ ground arith;
        link = f.before (at + 1) (omega arith) ∙ ground arith;
        body = f.holds;
        behind = λ j le. f.behind j (omega arith) ∙ ground arith;
      },
    )

pub block_size-fits :
    (random remaining : ℕ) → 2 ≤ remaining → block_size random remaining + 2 ≤ remaining
block_size-fits random remaining h = ground arith

abbrev pub numbers_of : (ℕ → ℤ) → ℕ → ℕ → List ℤ
numbers_of draw random remaining = draws draw 0 (block_size random remaining)

pub write_block-Written :
    (mapped : ℕ) (m : Memory) (remaining random : ℕ) (draw : ℕ → ℤ)
    → 2 ≤ remaining
    → remaining ≤ shm_cells
    → shm_cells ≤ mapped
    → (m' : Memory) × (write_block mapped m remaining random draw
        ≡ some (m', waiting (offset_of remaining) (remaining - block_size random remaining - 2)))
      × Written m (offset_of remaining) (numbers_of draw random remaining) m'
unfolding write_block
write_block-Written mapped m remaining random draw two fits room =
    let n = block_size random remaining in
    let small = block_size-fits random remaining two in
    let (m', e, w) =
      put_block-Written mapped m (offset_of remaining) n (numbers_of draw random remaining)
        (sym (length-draws draw 0 n)) (omega arith) in
    let t : ltb remaining 2 ≡ false = ground arith in (m', rw (t, e) refl, w)
