-- ===== src/Shm/Extremes.antt =====
-- `handle_numbers` of 04/main.c and 05/main.c.
use eltex_modul.Common.{
  ℕ, zero, suc, ◌<◌, ◌≡◌, refl, ◌⊎◌, inl, inr, List, [], ◌∷◌, arith, length, Bool-cases,
}
use eltex_modul.Common.Int.{ℤ, pos, ltb_ℤ, ◌≤ℤ◌, eq_of_parts}
use eltex_modul.Shm.{Memory, Range, widen, handle_from, handle_numbers, max_val, min_val}
use eltex_modul.Shm.Cells.{Holds}

-- The values of an int.
abbrev pub InInt : ℤ → Type 0
InInt x = (max_val ≤ℤ x) × (x ≤ℤ min_val)

abbrev pub AllInt : List ℤ → Type 0
AllInt [] = Unit {0}
AllInt (v ∷ vs) = InInt v × AllInt vs

abbrev pub In : ℤ → List ℤ → Type 0
In x [] = ⊥
In x (v ∷ vs) = (x ≡ v) ⊎ In x vs

abbrev pub AllWithin : Range → List ℤ → Type 0
AllWithin r [] = Unit {0}
AllWithin r (v ∷ vs) = (r.least ≤ℤ v) × (v ≤ℤ r.greatest) × AllWithin r vs

-- The least and the greatest number of a list.
pub record Extremes (vs : List ℤ) (r : Range) : Type 0 where
  pub within : AllWithin r vs
  pub least_in : In r.least vs
  pub greatest_in : In r.greatest vs

-- `r` is the range of `vs`, started from `s`.
record Scanned (s : Range) (vs : List ℤ) (r : Range) : Type 0 where
  lower : r.least ≤ℤ s.least
  upper : s.greatest ≤ℤ r.greatest
  within : AllWithin r vs
  least_in : (r.least ≡ s.least) ⊎ In r.least vs
  greatest_in : (r.greatest ≡ s.greatest) ⊎ In r.greatest vs

widen-least :
    (x : ℤ) (s : Range)
    → ((widen x s).least ≤ℤ s.least)
      × ((widen x s).least ≤ℤ x)
      × (((widen x s).least ≡ s.least) ⊎ ((widen x s).least ≡ x))
unfolding widen
widen-least x s = elim (Bool-cases (ltb_ℤ x s.least)) [
  | inl t ↦ rw t (ground arith, ground arith, inr refl)
  | inr f ↦ rw f (ground arith, ground arith, inl refl)
]

widen-greatest :
    (x : ℤ) (s : Range)
    → (s.greatest ≤ℤ (widen x s).greatest)
      × (x ≤ℤ (widen x s).greatest)
      × (((widen x s).greatest ≡ s.greatest) ⊎ ((widen x s).greatest ≡ x))
unfolding widen
widen-greatest x s = elim (Bool-cases (ltb_ℤ s.greatest x)) [
  | inl t ↦ rw t (ground arith, ground arith, inr refl)
  | inr f ↦ rw f (ground arith, ground arith, inl refl)
]

handle_from-Scanned :
    (m : Memory) (i : ℕ) (vs : List ℤ) (s : Range)
    → Holds m i vs
    → Scanned s vs (handle_from (length vs) i m s)
unfolding handle_from
handle_from-Scanned m i [] s h = record {
  lower = omega arith;
  upper = omega arith;
  within = tt;
  least_in = inl refl;
  greatest_in = inl refl;
}
handle_from-Scanned m i (v ∷ vs) s h =
    let r = handle_from-Scanned m (suc i) vs (widen (m i) s) h.1 in
    let l = widen-least (m i) s in
    let g = widen-greatest (m i) s in
    record {
      lower = omega (arith, r.lower, l.0);
      upper = omega (arith, r.upper, g.0);
      within = rw (← h.0) (omega (arith, r.lower, l.1), omega (arith, r.upper, g.1), r.within);
      least_in = ground (arith, r.least_in, l.2, h.0);
      greatest_in = ground (arith, r.greatest_in, g.2, h.0);
    }

≤ℤ_antisym : (a b : ℤ) → a ≤ℤ b → b ≤ℤ a → a ≡ b
≤ℤ_antisym a b h k = eq_of_parts a b (omega arith)

-- For a block of at least one number, each an int, `handle_numbers` gives the least and the greatest
-- of them: no number lies outside, and both stand in the block.
pub handle_numbers-Extremes :
    (m : Memory) (i : ℕ) (vs : List ℤ)
    → Holds m i vs
    → AllInt vs
    → 0 < length vs
    → Extremes vs (handle_numbers (pos (length vs)) i m)
unfolding handle_numbers
handle_numbers-Extremes m i [] h k full = absurd (omega arith)
handle_numbers-Extremes m i (v ∷ vs) h k full =
    let s : Range = record { least = min_val; greatest = max_val } in
    let r = handle_from-Scanned m i (v ∷ vs) s h in
    record {
      within = r.within;
      least_in = elim r.least_in [
        | inr at ↦ at
        | inl start ↦ inl (≤ℤ_antisym _ v r.within.0 (rw start k.0.1))
      ];
      greatest_in = elim r.greatest_in [
        | inr at ↦ at
        | inl start ↦ inl (≤ℤ_antisym _ v (rw start k.0.0) r.within.1)
      ];
    }

handle_from-outward :
    (n i : ℕ) (m : Memory) (s : Range)
    → ((handle_from n i m s).least ≤ℤ s.least) × (s.greatest ≤ℤ (handle_from n i m s).greatest)
unfolding handle_from
handle_from-outward zero i m s = (omega arith, omega arith)
handle_from-outward (suc n) i m s =
    let r = handle_from-outward n (suc i) m (widen (m i) s) in
    (omega (arith, r.0, (widen-least (m i) s).0), omega (arith, r.1, (widen-greatest (m i) s).0))

-- Whatever cell the search starts from, the range that it gives holds what stands in that cell: with
-- the pointer to the size instead of the numbers it holds the size.
pub handle_numbers-first :
    (m : Memory) (i n : ℕ)
    → ((handle_numbers (pos (suc n)) i m).least ≤ℤ m i)
      × (m i ≤ℤ (handle_numbers (pos (suc n)) i m).greatest)
unfolding handle_numbers
handle_numbers-first m i n =
    let s : Range = record { least = min_val; greatest = max_val } in
    let r = handle_from-outward n (suc i) m (widen (m i) s) in
    (omega (arith, r.0, (widen-least (m i) s).1), omega (arith, r.1, (widen-greatest (m i) s).1))
