-- ===== src/Sniffer/Typing.antt =====
-- What select_interface, select_filter and setup_output_file of 08/udp_sniffer.c make of typed lines.
use eltex_modul.Common.{
  ℕ, ◌+◌, ◌-◌, ◌%◌, ◌^◌, min, ◌<◌, ◌≡◌, refl, ap, ◌∙◌, inl, inr, true, false, [], ◌∷◌, ◌++◌, ltb,
  ◌==◌, length, drop, arith, Bool-cases, ◌⊎◌,
}
use eltex_modul.Common.Int.{ℤ, pos, of_u32}
use eltex_modul.Common.Decimal.{read_sign, read_unsigned, read_digits, is_digit, long_max}
use eltex_modul.Common.Text.{
  Bytes, utf8, c_str, fgets, fgets-line, fgets-full, cut_newline, cut_newline-text, cut_newline_id,
  skip_space, is_space, span, AllOf, not_newline, not_zero, c_str_id, c_str-line,
}
use eltex_modul.Sniffer.{select_filter}
use eltex_modul.Sniffer.Setup.{
  ifnamsiz, max_filename, fgets_into, or_default, select_interface, scan_int, choose_filter,
  Answers, open_output, setup_output_file,
}

-- A name as it is typed: some bytes, no newline and no zero.
pub record IsTyped (name : Bytes) : Type 0 where
  pub some_bytes : 0 < length name
  pub one_line : AllOf not_newline name
  pub text : AllOf not_zero name

or_default-name : (default name : Bytes) → 0 < length name → or_default default name ≡ name
or_default-name default name some_bytes =
    let t : (length name == 0) ≡ false = ground (arith, some_bytes) in rw t refl

fgets_into-full :
    (size : ℕ) (junk input : Bytes)
    → 0 < length input
    → fgets_into size junk input ≡ fgets (size - 1) input
unfolding fgets_into
fgets_into-full size junk [] more = absurd (omega arith)
fgets_into-full size junk (c ∷ cs) more = refl

length-line : (name rest : Bytes) → 0 < length (name ++ 10 ∷ rest)
length-line [] rest = omega arith
length-line (c ∷ cs) rest = omega arith

-- A typed line: its newline is read as well, or stays behind because there is no room for it.
fgets-name :
    (size : ℕ) (junk name rest : Bytes)
    → IsTyped name
    → length name < size
    → (fgets_into size junk (name ++ 10 ∷ rest) ≡ (name ++ 10 ∷ [], rest))
      ⊎ (fgets_into size junk (name ++ 10 ∷ rest) ≡ (name, 10 ∷ rest))
fgets-name size junk name rest h fits = elim (Bool-cases (ltb (length name) (size - 1))) [
  | inl room ↦ inl (
      fgets_into-full size junk (name ++ 10 ∷ rest) (length-line name rest)
      ∙ fgets-line (size - 1) name rest h.one_line (ground (arith, room)))
  | inr full ↦
      let e : size - 1 ≡ length name = ground (arith, full, fits) in
      inr (
        fgets_into-full size junk (name ++ 10 ∷ rest) (length-line name rest)
        ∙ rw e (fgets-full name (10 ∷ rest) h.one_line))
]

cut-line : (name : Bytes) → IsTyped name → cut_newline (c_str (name ++ 10 ∷ [])) ≡ name
cut-line name h = rw (c_str-line name h.text) (cut_newline-text name [] h.one_line)

cut-name : (name : Bytes) → IsTyped name → cut_newline (c_str name) ≡ name
cut-name name h = rw (c_str_id name h.text) (cut_newline_id name h.one_line)

-- The interface: its name, with its newline gone or still to come.
pub select_interface-name :
    (junk name rest : Bytes)
    → IsTyped name
    → length name < ifnamsiz
    → (select_interface junk (name ++ 10 ∷ rest) ≡ (name, rest))
      ⊎ (select_interface junk (name ++ 10 ∷ rest) ≡ (name, 10 ∷ rest))
unfolding select_interface
select_interface-name junk name rest h fits =
    let d = or_default-name (utf8 "eth0") name h.some_bytes in
    elim (fgets-name ifnamsiz junk name rest h fits) [
      | inl e ↦ inl (rw e (rw (cut-line name h) (rw d refl)))
      | inr e ↦ inr (rw e (rw (cut-name name h) (rw d refl)))
    ]

-- The number of the filter, whether or not a newline comes first.
scan_int-digit :
    (junk : ℤ) (d : ℕ) (rest : Bytes)
    → d < 10
    → scan_int junk ((48 + d) ∷ 10 ∷ rest) ≡ (pos d, 10 ∷ rest)
unfolding scan_int skip_space span read_sign read_unsigned read_digits
scan_int-digit junk d rest small =
    let a : is_space (48 + d) ≡ false = ground (arith, small) in
    let b : is_digit (48 + d) ≡ true = ground (arith, small) in
    let e : (48 + d == 45) ≡ false = ground arith in
    let f : (48 + d == 43) ≡ false = ground arith in
    let v : of_u32 (min (0 + (48 + d - 48)) long_max % 2 ^ 32) ≡ pos d = ground (arith, small) in
    rw a (rw (b, e, f) (rw b (ap (λ z. (z, 10 ∷ rest)) v)))

pub choose_filter-digit :
    (junk : ℤ) (d : ℕ) (rest : Bytes)
    → d < 10
    → choose_filter junk ((48 + d) ∷ 10 ∷ rest) ≡ (select_filter (pos d), rest)
unfolding choose_filter
choose_filter-digit junk d rest small =
    ap (λ r. (select_filter r.0, drop 1 r.1)) (scan_int-digit junk d rest small)

pub choose_filter-newline :
    (junk : ℤ) (input : Bytes) → choose_filter junk (10 ∷ input) ≡ choose_filter junk input
unfolding choose_filter scan_int skip_space
choose_filter-newline junk input = refl

-- The answer y and the name of the file.
pub setup-yes :
    (a : Answers) (junk junk_name name rest : Bytes)
    → IsTyped name
    → length name < max_filename
    → setup_output_file a junk junk_name (utf8 "y\n" ++ (name ++ 10 ∷ rest)) ≡ open_output a name
unfolding setup_output_file
setup-yes a junk junk_name name rest h fits =
    let d = or_default-name (utf8 "output.txt") name h.some_bytes in
    let y : fgets_into 10 junk (utf8 "y\n" ++ (name ++ 10 ∷ rest))
        ≡ (utf8 "y\n", name ++ 10 ∷ rest) =
      fgets-line 9 (utf8 "y") (name ++ 10 ∷ rest) (refl, tt) (omega arith) in
    elim (fgets-name max_filename junk_name name rest h fits) [
      | inl e ↦ rw y (rw e (rw (cut-line name h) (rw d refl)))
      | inr e ↦ rw y (rw e (rw (cut-name name h) (rw d refl)))
    ]
