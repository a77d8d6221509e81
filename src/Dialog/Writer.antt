-- ===== src/Dialog/Writer.antt =====
-- What a channel of 03/main.c carries, and its writer.
use eltex_modul.Common.{
  ℕ, zero, suc, ◌≤◌, ◌≡◌, refl, sym, ap, ◌∙◌, inl, inr, Bool, true, false, List, [], ◌++◌,
  if◌then◌else◌, ltb, length, append_assoc, arith, Bool-cases,
}
use eltex_modul.Common.Text.{Bytes, c_str}
use eltex_modul.Dialog.{
  Mail, WriterAt, testing, typing, parting, silent, ReaderAt, Channel, Moved, moved, blocked,
  overrun, max_msg_count, read_console, put, line_mail, send_line, goodbye, say_goodbye, writer_at,
  write_step,
}
use eltex_modul.Dialog.Mails.{
  seen, is_line, is_goodbye, Proper, waiting, enqueue-Proper, length-enqueue, waiting-line,
  waiting-goodbye, goodbye-is_goodbye, line-is_line,
}

-- What is left of a console after some lines, and what these lines show.
abbrev pub after_lines : ℕ → Bytes → Bytes
after_lines zero input = input
after_lines (suc n) input = (read_console (after_lines n input)).1

abbrev pub lines : ℕ → Bytes → List Bytes
lines zero input = []
lines (suc n) input = lines n input ++ seen (c_str (read_console (after_lines n input)).0)

abbrev pub in_loop : WriterAt → Bool
in_loop testing = true
in_loop typing = true
in_loop parting = false
in_loop silent = false

-- A channel whose writer had `input` on its console at first: after some number of lines of it, what the
-- reader has shown and what waits in the queue are these lines, in their order.
pub record Faithful (input : Bytes) (h : Channel) : Type 0 where
  pub sent : ℕ
  pub told : h.shown ++ waiting h.queue ≡ lines sent input
  pub proper : Proper h.queue
  pub room : length h.queue ≤ max_msg_count
  pub typed : in_loop h.writer ≡ true → h.input ≡ after_lines sent input

-- A property of what a step leads to, if it leads anywhere.
abbrev pub Leads : {A : Type 0} → (A → Type 0) → Moved A → Type 0
Leads P (moved a) = P a
Leads P blocked = Unit {0}
Leads P overrun = Unit {0}

set_writer-Faithful :
    (input : Bytes) (h : Channel) (w : WriterAt)
    → (in_loop w ≡ true → in_loop h.writer ≡ true)
    → Faithful input h
    → Faithful input (record h { writer = w })
set_writer-Faithful input h w keeps f = record {
  sent = f.sent;
  told = f.told;
  proper = f.proper;
  room = f.room;
  typed = λ e. f.typed (keeps e);
}

pub set_reader-Faithful :
    (input : Bytes) (h : Channel) (r : ReaderAt)
    → Faithful input h
    → Faithful input (record h { reader = r })
set_reader-Faithful input h r f = record {
  sent = f.sent;
  told = f.told;
  proper = f.proper;
  room = f.room;
  typed = f.typed;
}

-- A writer that has left its loop reads nothing more.
left-Faithful :
    (input rest : Bytes) (h : Channel) (w : WriterAt)
    → in_loop w ≡ false
    → Faithful input h
    → Faithful input (record h { input = rest; writer = w })
left-Faithful input rest h w out f = record {
  sent = f.sent;
  told = f.told;
  proper = f.proper;
  room = f.room;
  typed = λ e. cc;
}

goodbye-no_line : (m : Mail) → is_goodbye m ≡ true → is_line m ≡ false
goodbye-no_line m e = ground (arith, e)

put-goodbye-Faithful :
    (input : Bytes) (behind : ℕ → ℕ) (h : Channel)
    → Faithful input h
    → Leads (Faithful input) (put (goodbye behind) h)
unfolding put
put-goodbye-Faithful input behind h f = elim (Bool-cases (ltb (length h.queue) max_msg_count)) [
  | inr e ↦ rw e tt
  | inl e ↦
      let is = goodbye-is_goodbye behind in
      rw e (record {
        sent = f.sent;
        told =
            ap (λ r. h.shown ++ r)
              (waiting-goodbye (goodbye behind) h.queue (goodbye-no_line (goodbye behind) is))
            ∙ f.told;
        proper = enqueue-Proper (goodbye behind) h.queue (ground (arith, is)) f.proper;
        room = ground (arith, e, length-enqueue (goodbye behind) h.queue);
        typed = f.typed;
      })
]

say_goodbye-Faithful :
    (input : Bytes) (behind : ℕ → ℕ) (failed : Bool) (h : Channel)
    → Faithful input h
    → Leads (Faithful input) (say_goodbye behind failed h)
unfolding say_goodbye
say_goodbye-Faithful input behind true h f = set_writer-Faithful input h silent (λ e. cc) f
say_goodbye-Faithful input behind false h f =
    put-goodbye-Faithful input behind (record h { writer = silent })
      (set_writer-Faithful input h silent (λ e. cc) f)

-- The line that was next.
send_line-Faithful :
    (input : Bytes) (failed : Bool) (h : Channel)
    → in_loop h.writer ≡ true
    → Faithful input h
    → Leads (Faithful input) (send_line failed h)
unfolding send_line put
send_line-Faithful input true h at f = left-Faithful input (read_console h.input).1 h parting refl f
send_line-Faithful input false h at f = elim (Bool-cases (ltb (length h.queue) max_msg_count)) [
  | inr e ↦ rw e tt
  | inl e ↦
      let line = line_mail (read_console h.input).0 in
      let is = line-is_line h.input in
      rw e (record {
        sent = suc f.sent;
        told =
            ap (λ r. h.shown ++ r) (waiting-line line h.queue is f.proper)
            ∙ sym (append_assoc h.shown (waiting h.queue) (seen line.text))
            ∙ ap (λ r. r ++ seen line.text) f.told
            ∙ ap (λ s. lines f.sent input ++ seen (c_str (read_console s).0)) (f.typed at);
        proper = enqueue-Proper line h.queue (ground (arith, is)) f.proper;
        room = ground (arith, e, length-enqueue line h.queue);
        typed = λ k. ap (λ s. (read_console s).1) (f.typed at);
      })
]

writer_at-Faithful :
    (input : Bytes) (behind : ℕ → ℕ) (running failed : Bool) (h : Channel) (w : WriterAt)
    → h.writer ≡ w
    → Faithful input h
    → Leads (Faithful input) (writer_at behind running failed h w)
writer_at-Faithful input behind running failed h testing e f =
    set_writer-Faithful input h (if running then typing else parting) (λ k. ap in_loop e) f
writer_at-Faithful input behind running failed h typing e f =
    send_line-Faithful input failed h (ap in_loop e) f
writer_at-Faithful input behind running failed h parting e f =
    say_goodbye-Faithful input behind failed h f
writer_at-Faithful input behind running failed h silent e f = tt

pub write_step-Faithful :
    (input : Bytes) (behind : ℕ → ℕ) (running failed : Bool) (h : Channel)
    → Faithful input h
    → Leads (Faithful input) (write_step behind running failed h)
unfolding write_step
write_step-Faithful input behind running failed h f =
    writer_at-Faithful input behind running failed h h.writer refl f
