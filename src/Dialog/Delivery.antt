-- ===== src/Dialog/Delivery.antt =====
-- What the users of 03/main.c are shown, in every order of what the four threads do.
use eltex_modul.Common.{ℕ, ◌≤◌, ◌≡◌, refl, ◌∙◌, List, [], ◌∷◌, ◌++◌, length, arith}
use eltex_modul.Common.Text.{Bytes}
use eltex_modul.Dialog.{
  ◌and_then◌, Moved, moved, blocked, overrun, write_step, read_step, Dialog, Action, first_writes,
  second_writes, first_reads, second_reads, first_stops, second_stops, act, converse, start,
  open_channel, Channel, max_msg_count,
}
use eltex_modul.Dialog.Mails.{waiting}
use eltex_modul.Dialog.Console.{told_by, lines-told_by}
use eltex_modul.Dialog.Writer.{Faithful, Leads, write_step-Faithful}
use eltex_modul.Dialog.Reader.{read_step-Faithful}

-- Both channels.
pub record BothFaithful (first second : Bytes) (d : Dialog) : Type 0 where
  pub there : Faithful first d.there
  pub back : Faithful second d.back

Leads-then :
    {A B : Type 0} (P : A → Type 0) (Q : B → Type 0) (x : Moved A) (k : A → Moved B)
    → Leads P x
    → ((a : A) → P a → Leads Q (k a))
    → Leads Q (x and_then k)
Leads-then P Q (moved a) k p f = f a p
Leads-then P Q blocked k p f = tt
Leads-then P Q overrun k p f = tt

act-Faithful :
    (first second : Bytes) (behind : ℕ → ℕ) (d : Dialog) (a : Action)
    → BothFaithful first second d
    → Leads (BothFaithful first second) (act behind d a)
unfolding act
act-Faithful first second behind d (first_writes failed) f =
    Leads-then (Faithful first) (BothFaithful first second)
      (write_step behind d.first_running failed d.there) (λ h. moved (record d { there = h }))
      (write_step-Faithful first behind d.first_running failed d.there f.there)
      (λ h g. record { there = g; back = f.back })
act-Faithful first second behind d (second_writes failed) f =
    Leads-then (Faithful second) (BothFaithful first second)
      (write_step behind d.second_running failed d.back) (λ h. moved (record d { back = h }))
      (write_step-Faithful second behind d.second_running failed d.back f.back)
      (λ h g. record { there = f.there; back = g })
act-Faithful first second behind d (first_reads failed) f =
    Leads-then (λ r. Faithful second r.0) (BothFaithful first second)
      (read_step d.first_running failed d.back)
      (λ r. moved (record d { back = r.0; first_running = r.1 }))
      (read_step-Faithful second d.first_running failed d.back f.back)
      (λ r g. record { there = f.there; back = g })
act-Faithful first second behind d (second_reads failed) f =
    Leads-then (λ r. Faithful first r.0) (BothFaithful first second)
      (read_step d.second_running failed d.there)
      (λ r. moved (record d { there = r.0; second_running = r.1 }))
      (read_step-Faithful first d.second_running failed d.there f.there)
      (λ r g. record { there = g; back = f.back })
act-Faithful first second behind d first_stops f = record { there = f.there; back = f.back }
act-Faithful first second behind d second_stops f = record { there = f.there; back = f.back }

actions-Faithful :
    (first second : Bytes) (behind : ℕ → ℕ) (actions : List Action) (d : Dialog)
    → BothFaithful first second d
    → Leads (BothFaithful first second) (converse behind d actions)
unfolding converse
actions-Faithful first second behind [] d f = f
actions-Faithful first second behind (a ∷ more) d f =
    Leads-then (BothFaithful first second) (BothFaithful first second) (act behind d a)
      (λ d'. converse behind d' more) (act-Faithful first second behind d a f)
      (λ d' g. actions-Faithful first second behind more d' g)

open_channel-Faithful : (input : Bytes) → Faithful input (open_channel input)
open_channel-Faithful input = record {
  sent = 0;
  told = refl;
  proper = tt;
  room = omega arith;
  typed = λ e. refl;
}

-- What the reader of a channel has shown and what waits for it is what some number of messages from the
-- console show, in order; at most ten of them wait.
pub record Heard (console : Bytes) (h : Channel) : Type 0 where
  pub sent : ℕ
  pub told : h.shown ++ waiting h.queue ≡ told_by sent console
  pub room : length h.queue ≤ max_msg_count

pub record BothHeard (first second : Bytes) (d : Dialog) : Type 0 where
  pub there : Heard first d.there
  pub back : Heard second d.back

Faithful-Heard : (console : Bytes) (h : Channel) → Faithful console h → Heard console h
Faithful-Heard console h f = record {
  sent = f.sent;
  told = f.told ∙ lines-told_by f.sent console;
  room = f.room;
}

both-Heard :
    (first second : Bytes) (d : Dialog) → BothFaithful first second d → BothHeard first second d
both-Heard first second d f = record {
  there = Faithful-Heard first d.there f.there;
  back = Faithful-Heard second d.back f.back;
}

-- Whatever the order in which the four threads and the signals act, and whichever calls on the queues
-- fail, as long as no array is overrun: for each user, what the other has been shown, followed by the lines
-- that wait in the queue, is what the first n messages from the user's console show, for some n, with none
-- lost, doubled, changed or out of order. The messages are the lines of the console, each with its newline
-- (a blank line is a newline), a line of more than 255 bytes in pieces of 255, and once the console has
-- ended the text "EOF сообщение" each time. A message is shown up to its first zero byte, and not at all if
-- it begins with one. No queue holds more than ten messages.
pub converse-BothHeard :
    (first second : Bytes) (behind : ℕ → ℕ) (actions : List Action) (d : Dialog)
    → converse behind (start first second) actions ≡ moved d
    → BothHeard first second d
converse-BothHeard first second behind actions d e = both-Heard first second d (
    rw e at (
      actions-Faithful first second behind actions (start first second)
        (record { there = open_channel-Faithful first; back = open_channel-Faithful second })))
