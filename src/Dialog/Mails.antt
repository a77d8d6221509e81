-- ===== src/Dialog/Mails.antt =====
-- The messages in a queue of 03/main.c.
use eltex_modul.Common.{
  ℕ, zero, suc, ◌-◌, ◌≤◌, ◌<◌, ◌≡◌, refl, sym, ap, ◌∙◌, inl, inr, Bool, true, false, ◌&&◌, ◌||◌,
  List, [], ◌∷◌, ◌++◌, if◌then◌else◌, ltb, ◌==◌, length, append_assoc, append-nil, arith,
  Bool-cases,
}
use eltex_modul.Common.Text.{fgets, Bytes, c_str}
use eltex_modul.Dialog.{Mail, buffer_size, enqueue, read_console, goodbye, line_mail, bytes_at}

-- What a reader shows of a text that it gets, if it is not empty.
abbrev pub seen : Bytes → List Bytes
seen [] = []
seen (c ∷ cs) = c_str (c ∷ cs) ∷ []

-- The message of a line, and the last message.
abbrev pub is_line : Mail → Bool
is_line m = (m.priority == 1) && ltb (length m.text) buffer_size

abbrev pub is_goodbye : Mail → Bool
is_goodbye m = (m.priority == 2) && (length m.text == buffer_size)

abbrev pub Proper : List Mail → Type 0
Proper [] = Unit {0}
Proper (m ∷ ms) = ((is_line m || is_goodbye m) ≡ true) × Proper ms

-- What the reader has still to show, the last message left aside.
abbrev pub waiting : List Mail → List Bytes
waiting [] = []
waiting (m ∷ ms) = if is_line m then seen m.text ++ waiting ms else waiting ms

pub enqueue-Proper :
    (m : Mail) (ms : List Mail)
    → (is_line m || is_goodbye m) ≡ true
    → Proper ms
    → Proper (enqueue m ms)
unfolding enqueue
enqueue-Proper m [] p ps = (p, tt)
enqueue-Proper m (q ∷ qs) p ps = elim (Bool-cases (ltb q.priority m.priority)) [
  | inl e ↦ rw e (p, ps)
  | inr e ↦ rw e (ps.0, enqueue-Proper m qs p ps.1)
]

pub length-enqueue : (m : Mail) (ms : List Mail) → length (enqueue m ms) ≡ suc (length ms)
unfolding enqueue
length-enqueue m [] = refl
length-enqueue m (q ∷ qs) = elim (Bool-cases (ltb q.priority m.priority)) [
  | inl e ↦ rw e refl
  | inr e ↦ rw e (ap suc (length-enqueue m qs))
]

pub waiting-line :
    (m : Mail) (ms : List Mail)
    → is_line m ≡ true
    → Proper ms
    → waiting (enqueue m ms) ≡ waiting ms ++ seen m.text
unfolding enqueue
waiting-line m [] p ps = rw p (append-nil (seen m.text))
waiting-line m (q ∷ qs) p ps =
    let behind : ltb q.priority m.priority ≡ false = ground (arith, p, ps.0) in
    rw behind (elim (Bool-cases (is_line q)) [
      | inl e ↦ rw e (
          ap (λ r. seen q.text ++ r) (waiting-line m qs p ps.1)
          ∙ sym (append_assoc (seen q.text) (waiting qs) (seen m.text)))
      | inr e ↦ rw e (waiting-line m qs p ps.1)
    ])

pub waiting-goodbye :
    (m : Mail) (ms : List Mail) → is_line m ≡ false → waiting (enqueue m ms) ≡ waiting ms
unfolding enqueue
waiting-goodbye m [] p = rw p refl
waiting-goodbye m (q ∷ qs) p = elim (Bool-cases (ltb q.priority m.priority)) [
  | inl e ↦ rw (e, p) refl
  | inr e ↦ rw e (elim (Bool-cases (is_line q)) [
    | inl f ↦ rw f (ap (λ r. seen q.text ++ r) (waiting-goodbye m qs p))
    | inr f ↦ rw f (waiting-goodbye m qs p)
  ])
]

length-bytes_at : (behind : ℕ → ℕ) (n : ℕ) → length (bytes_at behind n) ≡ n
length-bytes_at behind zero = refl
length-bytes_at behind (suc n) = ap suc (length-bytes_at behind n)

pub goodbye-is_goodbye : (behind : ℕ → ℕ) → is_goodbye (goodbye behind) ≡ true
goodbye-is_goodbye behind = refl

fgets-length : (n : ℕ) (s : Bytes) → length (fgets n s).0 ≤ n
unfolding fgets
fgets-length zero s = omega arith
fgets-length (suc n) [] = omega arith
fgets-length (suc n) (c ∷ cs) = ground (arith, fgets-length n cs)

c_str-length : (s : Bytes) → length (c_str s) ≤ length s
unfolding c_str
c_str-length [] = omega arith
c_str-length (c ∷ cs) = ground (arith, c_str-length cs)

read_console-short : (s : Bytes) → length (read_console s).0 < buffer_size
unfolding read_console
read_console-short [] = omega arith
read_console-short (c ∷ cs) = omega (arith, fgets-length (buffer_size - 1) (c ∷ cs))

pub line-is_line : (s : Bytes) → is_line (line_mail (read_console s).0) ≡ true
line-is_line s =
    let short : ltb (length (c_str (read_console s).0)) buffer_size ≡ true =
      ground (arith, c_str-length (read_console s).0, read_console-short s) in
    rw short refl
