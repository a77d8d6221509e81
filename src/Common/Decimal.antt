-- ===== src/Common/Decimal.antt =====
-- printf's `%ld` and the number that `%ld` of scanf reads.
use eltex_modul.Common.{
  length, ℕ, zero, suc, ◌+◌, ◌-◌, ◌*◌, ◌/◌, ◌%◌, ◌^◌, ◌≤◌, ◌<◌, ◌≡◌, refl, ap, ◌∙◌, Bool, true,
  false, ◌&&◌, Option, none, some, [], ◌∷◌, arith, ltb, leb, ◌==◌, if◌then◌else◌, min, Bool-cases,
  inl, inr,
}
use eltex_modul.Common.Int.{
  InInt32, of_u32, to_u32, of_u32-to_u32, ℤ, pos, negsuc, pos_part, neg_part,
}
use eltex_modul.Common.Text.{Bytes, skip_space, AllOf, not_zero}

-- The decimal digits of `n` in front of `acc`; `n + 1` rounds are enough.
unfoldable pub digits : ℕ → ℕ → Bytes → Bytes
digits zero n acc = acc
digits (suc f) n acc =
    let rest = digits f (n / 10) ((48 + n % 10) ∷ acc) in if ltb n 10 then (48 + n) ∷ acc else rest

unfoldable pub print_ℕ : ℕ → Bytes
unfolding digits
print_ℕ n = digits (suc n) n []

unfoldable pub print_ℤ : ℤ → Bytes
unfolding print_ℕ
print_ℤ (pos n) = print_ℕ n
print_ℤ (negsuc n) = b'-' ∷ print_ℕ (suc n)

abbrev pub is_digit : ℕ → Bool
is_digit c = leb 48 c && leb c 57

-- The value of the digits in front, behind those already read.
unfoldable pub read_digits : ℕ → Bytes → ℕ
read_digits v [] = v
read_digits v (c ∷ cs) =
    let more = read_digits (v * 10 + (c - 48)) cs in if is_digit c then more else v

abbrev pub long_max : ℕ
long_max = 2 ^ 63 - 1

-- A value out of range saturates, as strtol does.
abbrev pub saturate : Bool → ℕ → ℤ
saturate true v = if v == 0 then pos 0 else negsuc (min v (2 ^ 63) - 1)
saturate false v = pos (min v long_max)

-- The digits behind the sign; a number has at least one.
unfoldable pub read_unsigned : Bool → Bytes → Option ℤ
unfolding read_digits
read_unsigned negative [] = none
read_unsigned negative (c ∷ cs) =
    if is_digit c then some (saturate negative (read_digits 0 (c ∷ cs))) else none

unfoldable pub read_sign : Bytes → Option ℤ
unfolding read_unsigned
read_sign [] = none
read_sign (c ∷ cs) =
    if c == b'-'
    then read_unsigned true cs
    else if c == b'+'
    then read_unsigned false cs
    else read_unsigned false (c ∷ cs)

-- `%ld`: white space, a sign, digits. `none` when no number stands there.
unfoldable pub read_long : Bytes → Option ℤ
unfolding skip_space read_sign
read_long s = read_sign (skip_space s)

read_digits-digits :
    (f n : ℕ) (acc : Bytes) → n < f → read_digits 0 (digits f n acc) ≡ read_digits n acc
unfolding digits read_digits
read_digits-digits zero n acc h = absurd (omega arith)
read_digits-digits (suc f) n acc h = elim (Bool-cases (ltb n 10)) [
  | inl last ↦ rw last (ground arith)
  | inr more ↦ rw more (read_digits-digits f (n / 10) _ (ground arith) ∙ ground arith)
]

read_print : (n : ℕ) → read_digits 0 (digits (suc n) n []) ≡ n
unfolding read_digits
read_print n = read_digits-digits (suc n) n [] (omega arith)

-- A number's first digit, so that neither white space nor a sign stands in front.
digits-head :
    (f n : ℕ) (acc : Bytes)
    → n < f
    → (d : ℕ) × (rest : Bytes) × (digits f n acc ≡ d ∷ rest) × (is_digit d ≡ true)
unfolding digits
digits-head zero n acc h = absurd (omega arith)
digits-head (suc f) n acc h = elim (Bool-cases (ltb n 10)) [
  | inl last ↦ (48 + n, acc, rw last refl, ground arith)
  | inr more ↦
      let (d, rest, e, q) = digits-head f (n / 10) ((48 + n % 10) ∷ acc) (ground arith) in
      (d, rest, rw more e, q)
]

read_unsigned-digit :
    (negative : Bool) (s : Bytes) (d : ℕ) (rest : Bytes)
    → s ≡ d ∷ rest
    → is_digit d ≡ true
    → read_unsigned negative s ≡ some (saturate negative (read_digits 0 s))
unfolding read_unsigned
read_unsigned-digit negative s d rest e q = rw (e, q) refl

read_unsigned-print :
    (negative : Bool) (n : ℕ) → read_unsigned negative (print_ℕ n) ≡ some (saturate negative n)
unfolding print_ℕ
read_unsigned-print negative n =
    let (d, rest, e, q) = digits-head (suc n) n [] (omega arith) in
    let value : read_digits 0 (digits (suc n) n []) ≡ n = read_print n in
    read_unsigned-digit negative (digits (suc n) n []) d rest e q
    ∙ ap (λ v. some (saturate negative v)) value

-- The integers that a `long` holds.
abbrev pub InLong : ℤ → Type 0
InLong z = (pos_part z ≤ long_max) × (neg_part z ≤ 2 ^ 63)

read_long-print_ℕ : (n : ℕ) → read_long (print_ℕ n) ≡ read_unsigned false (print_ℕ n)
unfolding read_long print_ℕ
read_long-print_ℕ n =
    let (d, rest, e, q) = digits-head (suc n) n [] (omega arith) in rw e (ground arith)

-- What `%ld` prints, `%ld` reads back.
pub read_long-print : (z : ℤ) → InLong z → read_long (print_ℤ z) ≡ some z
unfolding print_ℤ read_long
read_long-print (pos n) h = read_long-print_ℕ n ∙ read_unsigned-print false n ∙ ground arith
read_long-print (negsuc n) h = read_unsigned-print true (suc n) ∙ ground arith

digits-not_zero : (f n : ℕ) (acc : Bytes) → AllOf not_zero acc → AllOf not_zero (digits f n acc)
unfolding digits
digits-not_zero zero n acc h = h
digits-not_zero (suc f) n acc h = elim (Bool-cases (ltb n 10)) [
  | inl last ↦ rw last (ground arith, h)
  | inr more ↦ rw more (digits-not_zero f (n / 10) _ (ground arith, h))
]

-- A printed number holds no zero byte.
pub print-not_zero : (z : ℤ) → AllOf not_zero (print_ℤ z)
unfolding print_ℤ
print-not_zero (pos n) = digits-not_zero (suc n) n [] tt
print-not_zero (negsuc n) = (refl, digits-not_zero (suc (suc n)) (suc n) [] tt)

-- `atoi` is `strtol`, cut to an int.
abbrev pub of_long : Option ℤ → ℤ
of_long none = pos 0
of_long (some z) = of_u32 (to_u32 z)

unfoldable pub atoi : Bytes → ℤ
unfolding read_long
atoi s = of_long (read_long s)

-- An int that is printed is read back by `atoi`.
pub atoi-print : (z : ℤ) → InInt32 z → atoi (print_ℤ z) ≡ z
unfolding atoi
atoi-print z h = ap of_long (read_long-print z (InInt32-InLong z h)) ∙ of_u32-to_u32 z h
  where
    InInt32-InLong : (z : ℤ) → InInt32 z → InLong z
    InInt32-InLong (pos n) h = (omega arith, omega arith)
    InInt32-InLong (negsuc n) h = (omega arith, omega arith)

digits-AllOf :
    (test : ℕ → Bool)
    → ((d : ℕ) → d < 10 → test (48 + d) ≡ true)
    → (f n : ℕ) (acc : Bytes) → AllOf test acc
    → AllOf test (digits f n acc)
unfolding digits
digits-AllOf test good zero n acc h = h
digits-AllOf test good (suc f) n acc h = elim (Bool-cases (ltb n 10)) [
  | inl last ↦ rw last (good n (ground arith), h)
  | inr more ↦ rw more (digits-AllOf test good f (n / 10) _ (good (n % 10) (omega arith), h))
]

-- A printed number consists of digits and perhaps a minus.
pub print-AllOf :
    (test : ℕ → Bool)
    → ((d : ℕ) → d < 10 → test (48 + d) ≡ true)
    → test b'-' ≡ true
    → (z : ℤ) → AllOf test (print_ℤ z)
unfolding print_ℤ
print-AllOf test good minus (pos n) = digits-AllOf test good (suc n) n [] tt
print-AllOf test good minus (negsuc n) = (minus, digits-AllOf test good (suc (suc n)) (suc n) [] tt)

abbrev ten_to : ℕ → ℕ
ten_to zero = 1
ten_to (suc k) = 10 * ten_to k

length-digits :
    (f k n : ℕ) (acc : Bytes) → n < ten_to (suc k) → length (digits f n acc) ≤ length acc + suc k
unfolding digits
length-digits zero k n acc h = omega arith
length-digits (suc f) zero n acc h =
    let last : ltb n 10 ≡ true = ground arith in rw last (omega arith)
length-digits (suc f) (suc k) n acc h = elim (Bool-cases (ltb n 10)) [
  | inl last ↦ rw last (omega arith)
  | inr more ↦
      rw more (omega (arith, length-digits f k (n / 10) ((48 + n % 10) ∷ acc) (omega arith)))
]

-- An int takes at most eleven bytes.
pub length-print : (z : ℤ) → InInt32 z → length (print_ℤ z) ≤ 11
unfolding print_ℤ
length-print (pos n) h = omega (arith, length-digits (suc n) 9 n [] (omega arith))
length-print (negsuc n) h = omega (arith, length-digits (suc (suc n)) 9 (suc n) [] (omega arith))

pub print-full : (z : ℤ) → 0 < length (print_ℤ z)
unfolding print_ℤ
print-full (pos n) =
    let (d, rest, e, q) = digits-head (suc n) n [] (omega arith) in rw e (omega arith)
print-full (negsuc n) = omega arith
