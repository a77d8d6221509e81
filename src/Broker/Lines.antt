-- ===== src/Broker/Lines.antt =====
-- get_str_by_file of 02/src/publisher.c: one line of a file, read byte by byte.
use eltex_modul.Common.{
  ℕ, zero, suc, ◌+◌, ◌≤◌, ◌<◌, ◌≡◌, ◌≢◌, refl, ap, ◌∙◌, inl, inr, Bool, true, false, not, ◌&&◌,
  Option, none, some, [], ◌∷◌, ◌++◌, ◌==◌, ltb, if◌then◌else◌, arith, length, length-append,
  append_assoc, append-nil, Bool-cases,
}
use eltex_modul.Common.Text.{Bytes}
use eltex_modul.Broker.Memory.{Run, ok, fault, out_of_fuel, ◌>>=◌}

-- What `read` gives: the bytes of a file that are left; or, with no file, -1 each time, which the loop
-- takes for success, while `c` keeps what it happens to hold.
pub data Source : Type 0 where
  file : Bytes → Source
  missing : ℕ → Source

abbrev pub opened : ℕ → Option Bytes → Source
opened junk none = missing junk
opened junk (some bytes) = file bytes

abbrev pub read_char : Source → Option (ℕ × Source)
read_char (file []) = none
read_char (file (c ∷ cs)) = some (c, file cs)
read_char (missing c) = some (c, missing c)

-- `buf[topic_index++] = c` in the line that is wanted.
unfoldable pub put_char : ℕ → Bool → Bytes → ℕ → Run Bytes
put_char size here buf c =
    if here && not (c == b'\n')
    then (if ltb (length buf) size then ok (buf ++ c ∷ []) else fault)
    else ok buf

-- `buf[topic_index] = '\0'`.
unfoldable pub end_line : ℕ → Bytes → Run Bytes
end_line size buf = if ltb (length buf) size then ok buf else fault

abbrev pub next_line : ℕ → ℕ → ℕ
next_line c current = if c == b'\n' then suc current else current

unfoldable pub line_loop : ℕ → ℕ → ℕ → Source → ℕ → Bytes → Run Bytes
unfolding put_char end_line
line_loop zero size num s current buf = out_of_fuel
line_loop (suc fuel) size num s current buf = elim (read_char s) [
  | none ↦ end_line size buf
  | some r ↦ put_char size (next_line r.0 current == num) buf r.0 >>= λ buf'.
      let more = line_loop fuel size num r.1 (next_line r.0 current) buf' in
      if ltb num (next_line r.0 current) then end_line size buf' else more
]

-- The line with the number `num`, into a buffer of `size` bytes; `junk` is what `c` holds at first.
unfoldable pub get_str_by_file : ℕ → ℕ → ℕ → Option Bytes → ℕ → Run Bytes
unfolding line_loop
get_str_by_file fuel size junk contents num = line_loop fuel size num (opened junk contents) 0 []

-- The line, said without the loop; past the last line it is empty.
abbrev pub nth_line : ℕ → Bytes → Bytes
nth_line num [] = []
nth_line zero (c ∷ cs) = if c == b'\n' then [] else c ∷ nth_line zero cs
nth_line (suc num) (c ∷ cs) = if c == b'\n' then nth_line num cs else nth_line (suc num) cs

abbrev pub fits_or_fault : ℕ → Bytes → Run Bytes
fits_or_fault size line = if ltb (length line) size then ok line else fault

-- In the line that is wanted.
line_loop-here :
    (fuel size num : ℕ) (cs buf : Bytes)
    → length cs < fuel
    → length buf ≤ size
    → line_loop fuel size num (file cs) num buf ≡ fits_or_fault size (buf ++ nth_line 0 cs)
unfolding line_loop
line_loop-here zero size num cs buf more fit = absurd (omega arith)
line_loop-here (suc fuel) size num [] buf more fit = rw (append-nil buf) refl
line_loop-here (suc fuel) size num (c ∷ cs) buf more fit = elim (Bool-cases (c == b'\n')) [
  | inl e ↦
      let past : ltb num (suc num) ≡ true = ground arith in
      let other : (suc num == num) ≡ false = ground arith in
      rw (e, other, past, append-nil buf) refl
  | inr e ↦
      let not_past : ltb num num ≡ false = ground arith in
      let here : (num == num) ≡ true = ground arith in
      rw (e, here, not_past)
        (elim (Bool-cases (ltb (length buf) size)) [
          | inl f ↦ rw f (
              line_loop-here fuel size num cs (buf ++ c ∷ []) (omega arith)
                (ground (arith, f, length-append buf (c ∷ [])))
              ∙ ap (fits_or_fault size) (append_assoc buf (c ∷ []) (nth_line 0 cs)))
          | inr f ↦
              let long : ltb (length (buf ++ c ∷ nth_line 0 cs)) size ≡ false =
                ground (arith, f, length-append buf (c ∷ nth_line 0 cs)) in
              rw (f, long) refl
        ])
]

put_char-newline :
    (size : ℕ) (here : Bool) (buf : Bytes) (c : ℕ)
    → (c == b'\n') ≡ true
    → put_char size here buf c ≡ ok buf
unfolding put_char
put_char-newline size here buf c e = ground (arith, e)

put_char-elsewhere : (size : ℕ) (buf : Bytes) (c : ℕ) → put_char size false buf c ≡ ok buf
unfolding put_char
put_char-elsewhere size buf c = refl

line_loop-step :
    (fuel size num : ℕ) (c : ℕ) (cs : Bytes) (current : ℕ) (buf buf' : Bytes)
    → put_char size (next_line c current == num) buf c ≡ ok buf'
    → ltb num (next_line c current) ≡ false
    → line_loop (suc fuel) size num (file (c ∷ cs)) current buf
      ≡ line_loop fuel size num (file cs) (next_line c current) buf'
unfolding line_loop
line_loop-step fuel size num c cs current buf buf' e f = rw (e, f) refl

loop_end :
    (fuel size num current : ℕ)
    → line_loop (suc fuel) size num (file []) current [] ≡ fits_or_fault size []
unfolding line_loop
loop_end fuel size num current = refl

-- From a line before the one that is wanted.
line_loop-line :
    (fuel size d num : ℕ) (cs : Bytes) (current : ℕ)
    → num ≡ d + current
    → length cs < fuel
    → line_loop fuel size num (file cs) current [] ≡ fits_or_fault size (nth_line d cs)
line_loop-line zero size d num cs current at more = absurd (omega arith)
line_loop-line (suc fuel) size zero num cs current at more =
    let here : current ≡ num = omega arith in
    ap (λ k. line_loop (suc fuel) size num (file cs) k []) here
    ∙ line_loop-here (suc fuel) size num cs [] more (omega arith)
line_loop-line (suc fuel) size (suc d) num [] current at more = loop_end fuel size num current
line_loop-line (suc fuel) size (suc d) num (c ∷ cs) current at more =
    elim (Bool-cases (c == b'\n')) [
      | inr e ↦
          let stays : next_line c current ≡ current = rw e refl in
          let other : (next_line c current == num) ≡ false = rw e (ground (arith, at)) in
          let go : ltb num (next_line c current) ≡ false = rw e (ground (arith, at)) in
          line_loop-step fuel size num c cs current [] []
            (ap (λ b. put_char size b [] c) other ∙ put_char-elsewhere size [] c) go
          ∙ ap (λ k. line_loop fuel size num (file cs) k []) stays
          ∙ line_loop-line fuel size (suc d) num cs current at (omega arith)
          ∙ rw e refl
      | inl e ↦
          let moves : next_line c current ≡ suc current = rw e refl in
          let go : ltb num (next_line c current) ≡ false = rw e (ground (arith, at)) in
          line_loop-step fuel size num c cs current [] []
            (put_char-newline size (next_line c current == num) [] c e) go
          ∙ ap (λ k. line_loop fuel size num (file cs) k []) moves
          ∙ line_loop-line fuel size d num cs (suc current) (omega (arith, at)) (omega arith)
          ∙ rw e refl
    ]

-- For a file that is there, get_str_by_file gives the line with the number asked for, without its newline,
-- or the empty line when the file has fewer; where the line does not fit the buffer with its final zero,
-- the buffer overflows. More rounds than the file has bytes are enough.
pub get_str-nth_line :
    (fuel size junk : ℕ) (bytes : Bytes) (num : ℕ)
    → length bytes < fuel
    → get_str_by_file fuel size junk (some bytes) num ≡ fits_or_fault size (nth_line num bytes)
unfolding get_str_by_file
get_str-nth_line fuel size junk bytes num more =
    line_loop-line fuel size num num bytes 0 (omega arith) more

missing-loop :
    (fuel size num c current : ℕ) (buf line : Bytes)
    → (c == b'\n') ≡ false
    → current ≤ num
    → line_loop fuel size num (missing c) current buf ≢ ok line
unfolding line_loop
missing-loop zero size num c current buf line e le = ground arith
missing-loop (suc fuel) size num c current buf line e le =
    let go : ltb num current ≡ false = ground (arith, le) in
    rw (e, go)
      (elim (Bool-cases (current == num)) [
        | inr f ↦ rw f (missing-loop fuel size num c current buf line e le)
        | inl f ↦ rw f (elim (Bool-cases (ltb (length buf) size)) [
          | inl g ↦ rw g (missing-loop fuel size num c current (buf ++ c ∷ []) line e le)
          | inr g ↦ rw g (ground arith)
        ])
      ])

-- When the file cannot be opened, get_str_by_file never gives a line, whatever the number of rounds, unless
-- the byte in `c`, which nothing has set, happens to be a newline: it goes round for ever, or runs
-- over the buffer.
pub get_str-missing :
    (fuel size junk num : ℕ) (line : Bytes)
    → junk ≢ b'\n'
    → get_str_by_file fuel size junk none num ≢ ok line
unfolding get_str_by_file
get_str-missing fuel size junk num line ne =
    missing-loop fuel size num junk 0 [] line (ground (arith, ne)) (omega arith)
