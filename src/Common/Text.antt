-- ===== src/Common/Text.antt =====
-- Bytes and C strings: the functions of string.h and stdio.h that the programs call. A byte is a
-- number below 256, a buffer a list of bytes, and a C string the bytes before the first zero.
use Prim.Native.Char.{code}
use Prim.Native.String.{String}
use eltex_modul.Common.{
  ℕ, zero, suc, ap, ◌+◌, ◌-◌, ◌/◌, ◌%◌, ◌≤◌, ◌<◌, ◌≡◌, refl, ◌↔◌, Bool, true, false, not, ◌&&◌,
  ◌||◌, List, [], ◌∷◌, ◌++◌, arith, ltb, leb, ◌==◌, if◌then◌else◌, length, take,
}

abbrev pub Bytes : Type 0
Bytes = List ℕ

-- The bytes of a source literal, which is UTF-8 with code points below 0x800.
abbrev pub utf8 : String → Bytes
utf8 String.[] = []
utf8 (String.◌∷◌ c s) =
    if ltb (code c) 0x80
    then code c ∷ utf8 s
    else (0xc0 + code c / 64) ∷ (0x80 + code c % 64) ∷ utf8 s

-- What a buffer holds as a C string.
unfoldable pub c_str : Bytes → Bytes
c_str [] = []
c_str (c ∷ cs) = if c == 0 then [] else c ∷ c_str cs

-- strncmp(s, prefix, strlen(prefix)) == 0.
abbrev pub starts_with : Bytes → Bytes → Bool
starts_with [] s = true
starts_with (p ∷ ps) [] = false
starts_with (p ∷ ps) (c ∷ cs) = p == c && starts_with ps cs

-- strcmp(s, t) == 0.
abbrev pub str_eq : Bytes → Bytes → Bool
str_eq [] [] = true
str_eq [] (c ∷ cs) = false
str_eq (p ∷ ps) [] = false
str_eq (p ∷ ps) (c ∷ cs) = p == c && str_eq ps cs

-- What snprintf leaves in a buffer of `size` bytes, without the final zero.
abbrev pub snprintf : ℕ → Bytes → Bytes
snprintf size text = take (size - 1) text

-- isspace of the C locale.
abbrev pub is_space : ℕ → Bool
is_space c = c == 32 || (leb 9 c && leb c 13)

-- White space that `%s` and `%ld` of scanf skip.
unfoldable pub skip_space : Bytes → Bytes
skip_space [] = []
skip_space (c ∷ cs) = if is_space c then skip_space cs else c ∷ cs

-- The longest prefix of at most `n` bytes that pass the test, and the rest.
unfoldable pub span : (ℕ → Bool) → ℕ → Bytes → Bytes × Bytes
span test zero s = ([], s)
span test (suc n) [] = ([], [])
span test (suc n) (c ∷ cs) =
    let (front, rest) = span test n cs in if test c then (c ∷ front, rest) else ([], c ∷ cs)

-- Every byte passes the test.
abbrev pub AllOf : (ℕ → Bool) → Bytes → Type 0
AllOf test [] = Unit {0}
AllOf test (c ∷ cs) = (test c ≡ true) × AllOf test cs

pub span-all :
    (test : ℕ → Bool) (n : ℕ) (xs : Bytes) (c : ℕ) (rest : Bytes)
    → AllOf test xs
    → length xs ≤ n
    → test c ≡ false
    → span test n (xs ++ c ∷ rest) ≡ (xs, c ∷ rest)
unfolding span
span-all test zero [] c rest all fits stop = refl
span-all test (suc n) [] c rest all fits stop = ground arith
span-all test zero (x ∷ xs) c rest all fits stop = absurd (omega arith)
span-all test (suc n) (x ∷ xs) c rest all fits stop =
    ground (arith, span-all test n xs c rest all.1)

pub str_eq_iff : (s t : Bytes) → (str_eq s t ≡ true) ↔ (s ≡ t)
str_eq_iff [] [] = (λ _. refl, λ _. refl)
str_eq_iff [] (c ∷ cs) = (λ h. ground arith, λ h. ground arith)
str_eq_iff (p ∷ ps) [] = (λ h. ground arith, λ h. ground arith)
str_eq_iff (p ∷ ps) (c ∷ cs) =
    (λ h. ground (arith, str_eq_iff ps cs), λ h. ground (arith, str_eq_iff ps cs))

abbrev pub not_zero : ℕ → Bool
not_zero c = ltb 0 c

-- A text with no zero byte is its own C string.
pub c_str_id : (s : Bytes) → AllOf not_zero s → c_str s ≡ s
unfolding c_str
c_str_id [] h = refl
c_str_id (c ∷ cs) h = ground (arith, c_str_id cs h.1)

pub span-whole :
    (test : ℕ → Bool) (n : ℕ) (xs : Bytes)
    → AllOf test xs
    → length xs ≤ n
    → span test n xs ≡ (xs, [])
unfolding span
span-whole test zero [] all fits = refl
span-whole test (suc n) [] all fits = refl
span-whole test zero (x ∷ xs) all fits = absurd (omega arith)
span-whole test (suc n) (x ∷ xs) all fits = ground (arith, span-whole test n xs all.1)

pub AllOf-append :
    (test : ℕ → Bool) (xs ys : Bytes) → AllOf test xs → AllOf test ys → AllOf test (xs ++ ys)
AllOf-append test [] ys h k = k
AllOf-append test (x ∷ xs) ys h k = (h.0, AllOf-append test xs ys h.1 k)

-- A text that fits its buffer is not cut.
pub take_all : (n : ℕ) (s : Bytes) → length s ≤ n → take n s ≡ s
take_all zero [] h = refl
take_all zero (c ∷ s) h = absurd (omega arith)
take_all (suc n) [] h = refl
take_all (suc n) (c ∷ s) h = ap (◌∷◌ c) (take_all n s (omega arith))

-- Only a text without a zero byte is its own C string.
pub c_str_all : (s : Bytes) → c_str s ≡ s → AllOf not_zero s
unfolding c_str
c_str_all [] e = tt
c_str_all (c ∷ cs) e = ground (arith, c_str_all cs)

-- `fgets` with room for `n` bytes: the line, and what is left of the input.
unfoldable pub fgets : ℕ → Bytes → Bytes × Bytes
fgets zero cs = ([], cs)
fgets (suc n) [] = ([], [])
fgets (suc n) (c ∷ cs) = let r = fgets n cs in if c == b'\n' then (c ∷ [], cs) else (c ∷ r.0, r.1)

-- `buffer[strcspn(buffer, "\n")] = 0`.
unfoldable pub cut_newline : Bytes → Bytes
cut_newline [] = []
cut_newline (b ∷ bs) = if b == 10 then [] else b ∷ cut_newline bs

abbrev pub not_newline : ℕ → Bool
not_newline c = not (c == 10)

pub cut_newline-text :
    (text rest : Bytes) → AllOf not_newline text → cut_newline (text ++ 10 ∷ rest) ≡ text
unfolding cut_newline
cut_newline-text [] rest h = refl
cut_newline-text (b ∷ bs) rest h = ground (arith, cut_newline-text bs rest h.1)

pub cut_newline_id : (text : Bytes) → AllOf not_newline text → cut_newline text ≡ text
unfolding cut_newline
cut_newline_id [] h = refl
cut_newline_id (b ∷ bs) h = ground (arith, cut_newline_id bs h.1)

pub c_str-line : (text : Bytes) → AllOf not_zero text → c_str (text ++ 10 ∷ []) ≡ text ++ 10 ∷ []
unfolding c_str
c_str-line [] h = refl
c_str-line (b ∷ bs) h = ground (arith, c_str-line bs h.1)

-- A line that fits is read with its newline, which stays behind when only that does not fit.
pub fgets-line :
    (n : ℕ) (text rest : Bytes)
    → AllOf not_newline text
    → length text < n
    → fgets n (text ++ 10 ∷ rest) ≡ (text ++ 10 ∷ [], rest)
unfolding fgets
fgets-line zero text rest h fits = absurd (omega arith)
fgets-line (suc n) [] rest h fits = refl
fgets-line (suc n) (b ∷ bs) rest h fits = ground (arith, fgets-line n bs rest h.1 (omega arith))

pub fgets-full :
    (text rest : Bytes) → AllOf not_newline text → fgets (length text) (text ++ rest) ≡ (text, rest)
unfolding fgets
fgets-full [] rest h = refl
fgets-full (b ∷ bs) rest h = ground (arith, fgets-full bs rest h.1)
