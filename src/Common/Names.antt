-- ===== src/Common/Names.antt =====
-- Things that the kernel keeps by their names, which are C strings: queues and named pipes.
use eltex_modul.Common.{
  ◌≡◌, refl, ◌++◌, Bool, true, false, ◌||◌, List, [], ◌∷◌, if◌then◌else◌, arith,
}
use eltex_modul.Common.Text.{Bytes, str_eq}

unfoldable pub has_name {ℓ} : {A : Type ℓ} → (A → Bytes) → Bytes → List A → Bool
has_name name_of name [] = false
has_name name_of name (x ∷ xs) = str_eq (name_of x) name || has_name name_of name xs

unfoldable pub without {ℓ} : {A : Type ℓ} → (A → Bytes) → Bytes → List A → List A
without name_of name [] = []
without name_of name (x ∷ xs) =
    let rest = without name_of name xs in if str_eq (name_of x) name then rest else x ∷ rest

pub without-missing {ℓ} :
    {A : Type ℓ} (name_of : A → Bytes) (name : Bytes) (xs : List A)
    → has_name name_of name xs ≡ false
    → without name_of name xs ≡ xs
unfolding has_name without
without-missing name_of name [] e = refl
without-missing name_of name (x ∷ xs) e = ground (arith, without-missing name_of name xs)

pub str_eq_self : (s : Bytes) → str_eq s s ≡ true
str_eq_self [] = refl
str_eq_self (c ∷ cs) = ground (arith, str_eq_self cs)

-- Behind a common front two strings are the same when the rest is.
pub str_eq-append : (front s t : Bytes) → str_eq (front ++ s) (front ++ t) ≡ str_eq s t
str_eq-append [] s t = refl
str_eq-append (c ∷ cs) s t = ground (arith, str_eq-append cs s t)

-- Two things with different names, created one behind the other, and removed in the same order.
module _ {ℓ} {A : Type ℓ} (name_of : A → Bytes) (one two : A) (xs : List A)
    (differ : str_eq (name_of one) (name_of two) ≡ false)
    (differ_back : str_eq (name_of two) (name_of one) ≡ false)
    (no_one : has_name name_of (name_of one) xs ≡ false)
    (no_two : has_name name_of (name_of two) xs ≡ false) where
  pub has_name-other : has_name name_of (name_of two) (one ∷ xs) ≡ false
  unfolding has_name
  has_name-other = ground (arith, differ, no_two)

  pub has_name-first : has_name name_of (name_of one) (one ∷ xs) ≡ true
  unfolding has_name
  has_name-first = ground (arith, str_eq_self (name_of one))

  pub without-both :
      without name_of (name_of two) (without name_of (name_of one) (two ∷ one ∷ xs)) ≡ xs
  unfolding without
  without-both =
      rw
        (
          differ_back,
          str_eq_self (name_of one),
          without-missing name_of (name_of one) xs no_one,
          str_eq_self (name_of two),
        )
        (without-missing name_of (name_of two) xs no_two)
