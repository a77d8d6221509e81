-- ===== src/Dialog/Console.antt =====
-- What the console of a user of 03/main.c gives, without fgets.
use eltex_modul.Common.{
  ℕ, zero, suc, ◌-◌, ◌≡◌, refl, sym, ap, false, ◌∙◌, inl, inr, ◌||◌, List, [], ◌∷◌, ◌++◌,
  if◌then◌else◌, ltb, ◌==◌, append_assoc, append-nil, arith, Bool-cases,
}
use eltex_modul.Common.Text.{Bytes, utf8, c_str, fgets}
use eltex_modul.Dialog.{read_console}
use eltex_modul.Dialog.Mails.{seen}
use eltex_modul.Dialog.Writer.{after_lines, lines}

-- A byte in front of the first piece.
abbrev pub prepend : ℕ → List Bytes → List Bytes
prepend c [] = (c ∷ []) ∷ []
prepend c (p ∷ ps) = (c ∷ p) ∷ ps

-- The bytes in pieces: one ends behind a newline or when it is full, where `room` bytes still fit the
-- first and 255 any other.
pub pieces : ℕ → Bytes → List Bytes
pieces room [] = []
pieces room (c ∷ cs) =
    let ends = c == 10 || ltb room 2 in
    let rest = pieces (if ends then 255 else room - 1) cs in
    if ends then (c ∷ []) ∷ rest else prepend c rest

-- The text that stands for a line when the console has ended.
abbrev pub eof_text : Bytes
eof_text = utf8 "EOF сообщение\n"

-- The first n messages from these pieces; behind the last it is the text for the end each time.
pub first_texts : ℕ → List Bytes → List Bytes
first_texts zero ps = []
first_texts (suc n) [] = eof_text ∷ first_texts n []
first_texts (suc n) (p ∷ ps) = p ∷ first_texts n ps

-- What texts show: each up to its first zero byte, and nothing for one that begins with it.
pub shown_of : List Bytes → List Bytes
shown_of [] = []
shown_of (t ∷ ts) = seen (c_str t) ++ shown_of ts

-- What n messages from a console show.
pub told_by : ℕ → Bytes → List Bytes
unfolding pieces first_texts shown_of
told_by n console = shown_of (first_texts n (pieces 255 console))

pieces-fgets :
    (room c : ℕ) (cs : Bytes)
    → pieces (suc room) (c ∷ cs)
      ≡ (fgets (suc room) (c ∷ cs)).0 ∷ pieces 255 (fgets (suc room) (c ∷ cs)).1
unfolding pieces fgets
pieces-fgets zero c cs = elim (Bool-cases (c == 10)) [ inl e ↦ rw e refl | inr e ↦ rw e refl ]
pieces-fgets (suc room) c [] =
    let more : ltb (suc (suc room)) 2 ≡ false = ground arith in
    elim (Bool-cases (c == 10)) [ inl e ↦ rw e refl | inr e ↦ rw (e, more) refl ]
pieces-fgets (suc room) c (b ∷ bs) =
    let more : ltb (suc (suc room)) 2 ≡ false = ground arith in
    let less : suc (suc room) - 1 ≡ suc room = omega arith in
    elim (Bool-cases (c == 10)) [
      | inl e ↦ rw e refl
      | inr e ↦ rw (e, more, less) (ap (prepend c) (pieces-fgets room b bs))
    ]

-- The same from the front, as the code reads.
lines-first :
    (n : ℕ) (input : Bytes)
    → lines (suc n) input ≡ seen (c_str (read_console input).0) ++ lines n (read_console input).1
lines-first zero input = sym (append-nil (seen (c_str (read_console input).0)))
lines-first (suc n) input =
    ap (λ l. l ++ seen (c_str (read_console (after_lines (suc n) input)).0)) (lines-first n input)
    ∙ append_assoc (seen (c_str (read_console input).0)) (lines n (read_console input).1)
        (seen (c_str (read_console (after_lines (suc n) input)).0))
    ∙ ap
        (λ s.
          seen (c_str (read_console input).0)
          ++ (lines n (read_console input).1 ++ seen (c_str (read_console s).0)))
        (after_first n input)
  where
    after_first :
        (n : ℕ) (input : Bytes) → after_lines (suc n) input ≡ after_lines n (read_console input).1
    after_first zero input = refl
    after_first (suc n) input = ap (λ s. (read_console s).1) (after_first n input)

pub lines-told_by : (n : ℕ) (input : Bytes) → lines n input ≡ told_by n input
unfolding told_by read_console
lines-told_by zero input = refl
lines-told_by (suc n) [] =
    lines-first n [] ∙ ap (λ l. seen (c_str eof_text) ++ l) (lines-told_by n [])
lines-told_by (suc n) (c ∷ cs) =
    lines-first n (c ∷ cs)
    ∙ ap (λ l. seen (c_str (fgets 255 (c ∷ cs)).0) ++ l) (lines-told_by n (fgets 255 (c ∷ cs)).1)
    ∙ ap (λ ps. shown_of (first_texts (suc n) ps)) (sym (pieces-fgets 254 c cs))
