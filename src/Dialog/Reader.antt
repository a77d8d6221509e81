-- ===== src/Dialog/Reader.antt =====
-- The reader of a channel of 03/main.c.
use eltex_modul.Common.{
  ◌≡◌, refl, sym, ap, ◌∙◌, inl, inr, Bool, true, false, List, [], ◌∷◌, ◌++◌, if◌then◌else◌, ltb,
  ◌==◌, length, append_assoc, append-nil, arith, Bool-cases,
}
use eltex_modul.Common.Text.{Bytes, c_str}
use eltex_modul.Dialog.{
  Mail, ReaderAt, looking, receiving, deaf, Channel, buffer_size, reader_at, receive, received,
  read_step,
}
use eltex_modul.Dialog.Mails.{seen, is_line, Proper, waiting}
use eltex_modul.Dialog.Writer.{Faithful, Leads, set_reader-Faithful}

pub seen-empty : (t : Bytes) → (length t == 0) ≡ true → seen t ≡ []
seen-empty [] e = refl
seen-empty (c ∷ cs) e = absurd (ground (arith, e))

pub seen-full : (t : Bytes) → (length t == 0) ≡ false → seen t ≡ c_str t ∷ []
seen-full [] e = absurd (ground (arith, e))
seen-full (c ∷ cs) e = refl

-- The first line of the queue is shown, if it is not empty.
line_taken-Faithful :
    (input : Bytes) (m : Mail) (ms : List Mail) (h : Channel) (r : ReaderAt) (shown : List Bytes)
    → shown ≡ h.shown ++ seen m.text
    → is_line m ≡ true
    → h.queue ≡ m ∷ ms
    → Faithful input h
    → Faithful input (record h { queue = ms; reader = r; shown = shown })
line_taken-Faithful input m ms h r shown more is e f =
    let queue : waiting h.queue ≡ seen m.text ++ waiting ms = ap waiting e ∙ rw is refl in
    let proper : Proper (m ∷ ms) = rw e at f.proper in
    record {
      sent = f.sent;
      told =
          ap (λ s. s ++ waiting ms) more
          ∙ append_assoc h.shown (seen m.text) (waiting ms)
          ∙ ap (λ r. h.shown ++ r) (sym queue)
          ∙ f.told;
      proper = proper.1;
      room = omega (arith, f.room, ap length e);
      typed = f.typed;
    }

received-Faithful :
    (input : Bytes) (running : Bool) (m : Mail) (ms : List Mail) (h : Channel)
    → h.queue ≡ m ∷ ms
    → Faithful input h
    → Leads (λ r. Faithful input r.0) (received running m (record h { queue = ms }))
unfolding received
received-Faithful input running m ms h e f =
    let proper : Proper (m ∷ ms) = rw e at f.proper in
    elim (Bool-cases (is_line m)) [
      | inr g ↦
          let full : (length m.text == 0) ≡ false = ground (arith, proper.0, g) in
          let long : ltb (length m.text) buffer_size ≡ false = ground (arith, proper.0, g) in
          rw (full, long) tt
      | inl is ↦ elim (Bool-cases (length m.text == 0)) [
        | inl z ↦
            let same =
              sym (append-nil h.shown) ∙ ap (λ r. h.shown ++ r) (sym (seen-empty m.text z)) in
            rw z (line_taken-Faithful input m ms h looking h.shown same is e f)
        | inr z ↦
            let fits : ltb (length m.text) buffer_size ≡ true = ground (arith, is) in
            let base : ltb 1 m.priority ≡ false = ground (arith, is) in
            let more = ap (λ r. h.shown ++ r) (sym (seen-full m.text z)) in
            rw (z, fits, base)
              (line_taken-Faithful input m ms h looking (h.shown ++ c_str m.text ∷ []) more is e f)
      ]
    ]

receive-Faithful :
    (input : Bytes) (running : Bool) (ms : List Mail) (h : Channel)
    → h.queue ≡ ms
    → Faithful input h
    → Leads (λ r. Faithful input r.0) (receive running h ms)
receive-Faithful input running [] h e f = set_reader-Faithful input h looking f
receive-Faithful input running (m ∷ ms) h e f = received-Faithful input running m ms h e f

reader_at-Faithful :
    (input : Bytes) (running failed : Bool) (h : Channel) (r : ReaderAt)
    → Faithful input h
    → Leads (λ r. Faithful input r.0) (reader_at running failed h r)
reader_at-Faithful input running failed h looking f =
    set_reader-Faithful input h (if running then receiving else deaf) f
reader_at-Faithful input running true h receiving f = set_reader-Faithful input h deaf f
reader_at-Faithful input running false h receiving f =
    receive-Faithful input running h.queue h refl f
reader_at-Faithful input running failed h deaf f = tt

pub read_step-Faithful :
    (input : Bytes) (running failed : Bool) (h : Channel)
    → Faithful input h
    → Leads (λ r. Faithful input r.0) (read_step running failed h)
unfolding read_step
read_step-Faithful input running failed h f = reader_at-Faithful input running failed h h.reader f
