-- ===== src/FileHeader.antt =====
-- The text that announces a file, "FILE_START:<name>:<size>", which 07/client.c and 07/server.c write
-- with one snprintf format and read with one sscanf format, "FILE_START:%255[^:]:%ld".
use eltex_modul.Common.{
  ℕ, ◌≡◌, refl, Bool, not, Option, none, some, [], ◌∷◌, ◌++◌, ◌==◌, if◌then◌else◌, drop, length,
  ◌<◌, ◌≤◌, ◌∙◌, arith,
}
use eltex_modul.Common.Int.{ℤ}
use eltex_modul.Common.Text.{
  Bytes, utf8, span, span-all, c_str, c_str_id, AllOf, AllOf-append, not_zero,
}
use eltex_modul.Common.Decimal.{print_ℤ, read_long, InLong, read_long-print, print-not_zero}

abbrev pub tag : Bytes
tag = utf8 "FILE_START:"

-- The text before snprintf cuts it to its buffer.
unfoldable pub format_header : Bytes → ℤ → Bytes
format_header name size = tag ++ (name ++ b':' ∷ print_ℤ size)

unfoldable pub scan_size : Bytes → Option ℤ
scan_size [] = none
scan_size (c ∷ cs) = if c == b':' then read_long cs else none

-- The name and the size that sscanf assigns; `none` where it leaves the variable as it was.
unfoldable pub scan_fields : Bytes × Bytes → Option Bytes × Option ℤ
scan_fields ([], rest) = (none, none)
scan_fields (c ∷ cs, rest) = (some (c ∷ cs), scan_size rest)

abbrev pub not_colon : ℕ → Bool
not_colon c = not (c == b':')

-- Both callers have found the tag in front with strncmp.
unfoldable pub scan_header : Bytes → Option Bytes × Option ℤ
unfolding span scan_size scan_fields
scan_header text = scan_fields (span not_colon 255 (drop 11 text))

-- A file name that the format can carry.
pub record IsFileName (name : Bytes) : Type 0 where
  pub full : 0 < length name
  pub short : length name ≤ 255
  pub plain : AllOf not_colon name
  pub text : AllOf not_zero name

scan_fields-full :
    (name rest : Bytes) → 0 < length name → scan_fields (name, rest) ≡ (some name, scan_size rest)
unfolding scan_fields
scan_fields-full [] rest h = absurd (omega arith)
scan_fields-full (c ∷ cs) rest h = refl

-- What the format writes, it reads back.
pub scan-format :
    (name : Bytes) (size : ℤ)
    → IsFileName name
    → InLong size
    → scan_header (format_header name size) ≡ (some name, some size)
unfolding scan_header format_header
scan-format name size h k =
    rw (span-all not_colon 255 name b':' (print_ℤ size) h.plain h.short refl)
      (scan_fields-full name (b':' ∷ print_ℤ size) h.full ∙ rw (read_long-print size k) refl)

-- A header is a C string: no byte of it is cut off.
pub c_str-format :
    (name : Bytes) (size : ℤ)
    → AllOf not_zero name
    → c_str (format_header name size) ≡ format_header name size
unfolding format_header
c_str-format name size h = c_str_id _ (
    AllOf-append not_zero tag _ (ground arith)
      (AllOf-append not_zero name _ h (refl, print-not_zero size)))
