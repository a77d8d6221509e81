-- ===== src/Dialog/Parting.antt =====
-- The last message of a user of 03/main.c.
use eltex_modul.Common.{
  ℕ, ◌<◌, ◌≡◌, refl, inl, inr, Bool, true, false, List, [], ◌∷◌, ltb, ◌==◌, length, arith,
  Bool-cases,
}
use eltex_modul.Common.Text.{Bytes}
use eltex_modul.Dialog.{
  Mail, parting, silent, receiving, Channel, moved, overrun, buffer_size, max_msg_count, enqueue,
  put, goodbye, say_goodbye, write_step, received, read_step,
}
use eltex_modul.Dialog.Mails.{is_goodbye, Proper, goodbye-is_goodbye}
use eltex_modul.Dialog.Writer.{Faithful}

first_of-goodbye :
    (m : Mail) (ms : List Mail)
    → is_goodbye m ≡ true
    → Proper ms
    → (q : Mail) × (qs : List Mail) × (enqueue m ms ≡ q ∷ qs) × (is_goodbye q ≡ true)
unfolding enqueue
first_of-goodbye m [] e p = (m, [], refl, e)
first_of-goodbye m (q ∷ qs) e p = elim (Bool-cases (is_goodbye q)) [
  | inl g ↦
      let later : ltb q.priority m.priority ≡ false = ground (arith, e, g) in
      (q, enqueue m qs, rw later refl, g)
  | inr g ↦
      let before : ltb q.priority m.priority ≡ true = ground (arith, e, p.0, g) in
      (m, q ∷ qs, rw before refl, e)
]

received-goodbye :
    (running : Bool) (m : Mail) (h : Channel) → is_goodbye m ≡ true → received running m h ≡ overrun
unfolding received
received-goodbye running m h e =
    let full : (length m.text == 0) ≡ false = ground (arith, e) in
    let long : ltb (length m.text) buffer_size ≡ false = ground (arith, e) in rw (full, long) refl

receive-goodbye :
    (running : Bool) (h : Channel) (q : Mail) (qs : List Mail)
    → is_goodbye q ≡ true
    → h.queue ≡ q ∷ qs
    → h.reader ≡ receiving
    → read_step running false h ≡ overrun
unfolding read_step
receive-goodbye running h q qs g e at =
    rw (at, e) (received-goodbye running q (record h { queue = qs; reader = receiving }) g)

-- A user leaves: its writer is behind its loop, in a channel that has been as it should, and the queue has
-- room. The last message is sent, and then, whatever lines still wait in the queue, the reader's next
-- mq_receive writes its final zero behind the end of the buffer.
pub say_goodbye-overrun :
    (input : Bytes) (behind : ℕ → ℕ) (running running' : Bool) (h : Channel)
    → Faithful input h
    → h.writer ≡ parting
    → h.reader ≡ receiving
    → length h.queue < max_msg_count
    → (h' : Channel) × (write_step behind running false h ≡ moved h')
      × (h'.writer ≡ silent)
      × (read_step running' false h' ≡ overrun)
unfolding write_step say_goodbye put
say_goodbye-overrun input behind running running' h f at at' room =
    let (q, qs, e, g) =
      first_of-goodbye (goodbye behind) h.queue (goodbye-is_goodbye behind) f.proper in
    let free : ltb (length h.queue) max_msg_count ≡ true = ground (arith, room) in
    let h' = record h { writer = silent; queue = enqueue (goodbye behind) h.queue } in
    (h', rw (at, free) refl, refl, receive-goodbye running' h' q qs g e at')
