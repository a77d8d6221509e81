-- ===== src/Dialog/Turn.antt =====
-- Lines that a user of 03/main.c types, one after the other, up to the screen of the other user.
use eltex_modul.Common.{
  ℕ, ◌≡◌, refl, inl, inr, Bool, true, false, List, [], ◌∷◌, ◌<◌, ◌-◌, ap, ◌∙◌, sym, append_assoc,
  ◌++◌, ltb, ◌==◌, length, append-nil, arith, Bool-cases,
}
use eltex_modul.Common.Text.{Bytes, c_str, AllOf, not_newline, not_zero, c_str-line, fgets-line}
use eltex_modul.Dialog.{
  Moved, blocked, overrun, ◌and_then◌, Mail, testing, looking, receiving, Channel, moved,
  buffer_size, enqueue, read_console, put, line_mail, send_line, write_step, received, read_step,
  Dialog, Action, first_writes, second_reads, act, converse,
}
use eltex_modul.Dialog.Reader.{seen-empty, seen-full}
use eltex_modul.Dialog.Mails.{seen, is_line, line-is_line}

received-line :
    (running : Bool) (m : Mail) (h : Channel)
    → is_line m ≡ true
    → received running m h
      ≡ moved (record h { reader = looking; shown = h.shown ++ seen m.text }, running)
unfolding received
received-line running m h e =
    let fits : ltb (length m.text) buffer_size ≡ true = ground (arith, e) in
    let base : ltb 1 m.priority ≡ false = ground (arith, e) in
    elim (Bool-cases (length m.text == 0)) [
      | inl z ↦ rw (seen-empty m.text z, z, append-nil h.shown) refl
      | inr z ↦ rw (seen-full m.text z, z, fits, base) refl
    ]

-- What a channel is when a line has gone through it.
abbrev pub passed : Channel → Channel
passed h =
    let r = read_console h.input in record h { input = r.1; shown = h.shown ++ seen (c_str r.0) }

-- The first writes a line, read by the second.
abbrev pub turn : List Action
turn = first_writes false ∷ first_writes false ∷ second_reads false ∷ second_reads false ∷ []

-- Both users are in their loops, and the queue to the second is empty.
pub record IsIdle (d : Dialog) : Type 0 where
  pub first_runs : d.first_running ≡ true
  pub second_runs : d.second_running ≡ true
  pub writer : d.there.writer ≡ testing
  pub reader : d.there.reader ≡ looking
  pub queue : d.there.queue ≡ []

converse-turn :
    (behind : ℕ → ℕ) (d : Dialog)
    → IsIdle d
    → converse behind d turn ≡ moved (record d { there = passed d.there })
unfolding converse act write_step read_step send_line put enqueue
converse-turn behind d i =
    rw (i.first_runs, i.second_runs, i.writer, i.reader, i.queue)
      (rw
        (received-line true (line_mail (read_console d.there.input).0)
          (record {
            input = (read_console d.there.input).1;
            writer = testing;
            queue = [];
            reader = receiving;
            shown = d.there.shown;
          })
          (line-is_line d.there.input))
        refl)

-- Lines as they are typed, and as they are shown.
abbrev pub typed : List Bytes → Bytes → Bytes
typed [] rest = rest
typed (t ∷ ts) rest = t ++ 10 ∷ typed ts rest

abbrev pub with_newlines : List Bytes → List Bytes
with_newlines [] = []
with_newlines (t ∷ ts) = (t ++ 10 ∷ []) ∷ with_newlines ts

-- No newline and no zero byte in a line, and at most 254 bytes.
abbrev pub AllTyped : List Bytes → Type 0
AllTyped [] = Unit {0}
AllTyped (t ∷ ts) =
    AllOf not_newline t × AllOf not_zero t × (length t < buffer_size - 1) × AllTyped ts

abbrev pub turns : List Bytes → List Action
turns [] = []
turns (t ∷ ts) = turn ++ turns ts

seen-line : (t : Bytes) → AllOf not_zero t → seen (c_str (t ++ 10 ∷ [])) ≡ (t ++ 10 ∷ []) ∷ []
unfolding c_str
seen-line t z = rw (c_str-line t z) (seen-whole t z)
  where
    seen-whole : (t : Bytes) → AllOf not_zero t → seen (t ++ 10 ∷ []) ≡ (t ++ 10 ∷ []) ∷ []
    seen-whole [] z = refl
    seen-whole (b ∷ bs) z = ap (λ l. l ∷ []) (c_str-line (b ∷ bs) z)

read_console-line :
    (t rest : Bytes)
    → AllOf not_newline t
    → length t < buffer_size - 1
    → read_console (t ++ 10 ∷ rest) ≡ (t ++ 10 ∷ [], rest)
unfolding read_console
read_console-line [] rest n short = fgets-line (buffer_size - 1) [] rest n short
read_console-line (b ∷ bs) rest n short = fgets-line (buffer_size - 1) (b ∷ bs) rest n short

then_assoc :
    {A B C : Type 0} (x : Moved A) (f : A → Moved B) (g : B → Moved C)
    → x and_then (λ a. f a and_then g) ≡ x and_then f and_then g
then_assoc (moved a) f g = refl
then_assoc blocked f g = refl
then_assoc overrun f g = refl

then_ap :
    {A B : Type 0} (x : Moved A) (f g : A → Moved B)
    → ((a : A) → f a ≡ g a)
    → x and_then f ≡ x and_then g
then_ap (moved a) f g e = e a
then_ap blocked f g e = refl
then_ap overrun f g e = refl

converse-append :
    (behind : ℕ → ℕ) (d : Dialog) (xs ys : List Action)
    → converse behind d (xs ++ ys) ≡ converse behind d xs and_then λ d'. converse behind d' ys
unfolding converse
converse-append behind d [] ys = refl
converse-append behind d (a ∷ xs) ys =
    then_ap (act behind d a) (λ d'. converse behind d' (xs ++ ys))
      (λ d'. converse behind d' xs and_then λ e. converse behind e ys)
      (λ d'. converse-append behind d' xs ys)
    ∙ then_assoc (act behind d a) (λ d'. converse behind d' xs) (λ e. converse behind e ys)

-- A turn and what comes after it.
converse-turn_first :
    (behind : ℕ → ℕ) (d : Dialog) (more : List Action)
    → IsIdle d
    → converse behind d (turn ++ more) ≡ converse behind (record d { there = passed d.there }) more
converse-turn_first behind d more i =
    converse-append behind d turn more
    ∙ ap (λ x. x and_then λ d'. converse behind d' more) (converse-turn behind d i)

-- What a channel is when its reader has shown more.
abbrev shows : Dialog → Bytes → List Bytes → Dialog
shows d rest shown = record d { there = record d.there { input = rest; shown = shown } }

-- Both users are in their loops and the queue to the second is empty; the first types lines of at most 254
-- bytes, with no zero byte, and then anything. In as many turns as there are lines, in which no call on the
-- queue fails, no thread waits, and the second is shown just these lines, in order and each with its
-- newline, a blank one too; the rest of what is typed is still to be read, and nothing else changes.
pub converse-lines :
    (behind : ℕ → ℕ) (d : Dialog) (ts : List Bytes) (rest : Bytes)
    → IsIdle d
    → AllTyped ts
    → d.there.input ≡ typed ts rest
    → converse behind d (turns ts)
      ≡ moved (record d {
        there = record d.there { input = rest; shown = d.there.shown ++ with_newlines ts };
      })
unfolding converse
converse-lines behind d [] rest i h e =
    ap (λ s. moved (shows d s d.there.shown)) e
    ∙ ap (λ s. moved (shows d rest s)) (sym (append-nil d.there.shown))
converse-lines behind d (t ∷ ts) rest i h e =
    let r : read_console d.there.input ≡ (t ++ 10 ∷ [], typed ts rest) =
      ap read_console e ∙ read_console-line t (typed ts rest) h.0 h.2 in
    let shown : seen (c_str (read_console d.there.input).0) ≡ (t ++ 10 ∷ []) ∷ [] =
      ap (λ p. seen (c_str p.0)) r ∙ seen-line t h.1 in
    converse-turn_first behind d (turns ts) i
    ∙ converse-lines behind (record d { there = passed d.there }) ts rest
        (record {
          first_runs = i.first_runs;
          second_runs = i.second_runs;
          writer = i.writer;
          reader = i.reader;
          queue = i.queue;
        })
        h.3 (ap (λ p. p.1) r)
    ∙ ap (λ s. moved (shows d rest s))
        (ap (λ l. (d.there.shown ++ l) ++ with_newlines ts) shown
          ∙ append_assoc d.there.shown ((t ++ 10 ∷ []) ∷ []) (with_newlines ts))
