-- ===== src/Broker/Client.antt =====
-- The subscriber of 02/src/main_sub.c and the publisher of 02/src/main_pub.c.
--
-- The list of the subscriber is the one that `subscriber` holds in main before the first topic; main does
-- not initialise it. `generated` is what generate_messege has left, `for_topic` what malloc has returned.
use eltex_modul.Common.{
  ℕ, zero, suc, Bool, false, ◌||◌, Option, none, some, List, [], ◌∷◌, ◌==◌, if◌then◌else◌,
}
use eltex_modul.Common.Int.{ℤ, pos, negsuc, ◌==ℤ◌}
use eltex_modul.Common.Text.{Bytes, str_eq}
use eltex_modul.Broker.Memory.{
  within, Run, ok, fault, out_of_fuel, ◌>>=◌, Ptr, null, Store, Queue, node, write, load, append,
}
use eltex_modul.Broker.Header.{
  text_fits, header_fits, Parsed, no_newline, few_commas, crash, parsed, parse_message,
}
use eltex_modul.Broker.Generate.{Generated, generate_unsub_messege}

-- The topics of the subscriber in its own memory, and how many there are.
pub record Own : Type 0 where
  pub topics : Store Bytes
  pub list : Queue
  pub nodes : ℕ

-- One round of init_sub_for_broker as the system lets it go.
pub record Draw : Type 0 where
  pub generated : Generated
  pub for_topic : Ptr
  pub taken : Bool

pub record Begun : Type 0 where
  pub own : Own
  pub sent : List Bytes
  pub result : ℤ

abbrev pub begun : Own → ℤ → Begun
begun own result = record { own = own; sent = []; result = result }

abbrev pub sends : Bytes → Begun → Begun
sends text b = record b { sent = text ∷ b.sent }

-- The walk through the topics, to the end whether it finds the topic or not.
unfoldable pub seek : ℕ → Store Bytes → Bytes → Ptr → Bool → Run Bool
seek zero h topic p skip = out_of_fuel
seek (suc fuel) h topic p skip =
    if p == null
    then ok skip
    else (do n ← load h p; seek fuel h topic n.next (str_eq n.value topic || skip))

unfoldable pub has_own : Own → Bytes → Run Bool
unfolding seek
has_own own topic = seek (suc own.nodes) own.topics topic own.list.head false

unfoldable pub add_own : Own → Ptr → Bytes → Run Own
add_own own p topic = do
  r ← append (write own.topics p (node topic null)) own.list p
  ok (record { topics = r.0; list = r.1; nodes = suc own.nodes })

-- malloc, whose result is not checked, is taken to succeed.
unfoldable pub init_sub_for_broker : Own → List Draw → Run Begun
init_sub_for_broker own [] = ok (begun own (pos 0))
init_sub_for_broker own (d ∷ ds) =
    if d.generated.code ==ℤ negsuc 0 then ok (begun own (negsuc 0)) else (do
      known ← has_own own d.generated.topic
      let skip = init_sub_for_broker own ds
      let subscribe = (do
        own' ← add_own own d.for_topic d.generated.topic
        b ← init_sub_for_broker own' ds
        ok (sends d.generated.text b))
      if known then skip else if d.taken then subscribe else ok (begun own (negsuc 0)))

-- A message for the subscriber is taken apart and printed; its result is none where nothing is returned.
-- `text` is the string that begins in rcv_mes.text, as in the broker.
unfoldable pub show_message : Bytes → Parsed → Run (Option ℤ)
show_message text no_newline = within (text_fits text) (ok (some (negsuc 2)))
show_message text few_commas = within (header_fits text) (ok (some (negsuc 3)))
show_message text crash = fault
show_message text (parsed c) = within (text_fits text) (ok none)

-- What msgrcv returns, and whether a signal has interrupted it; `text` is the string that then begins in
-- rcv_mes.text.
unfoldable pub subscriber_process : ℤ → Bool → Bytes → Run (Option ℤ)
subscriber_process received interrupted text =
    if received ==ℤ negsuc 0
    then (if interrupted then ok (some (pos 1)) else show_message text (parse_message text))
    else show_message text (parse_message text)

-- What msgsnd answers to a message: it is taken, the queue is gone, or another error.
pub data Sending : Type 0 where
  accepted : Sending
  removed : Sending
  failed : Sending

pub record Ended : Type 0 where
  pub sent : List Bytes
  pub result : Option ℤ

abbrev pub ended : Option ℤ → Ended
ended result = record { sent = []; result = result }

abbrev pub ended_after : Bytes → Ended → Ended
ended_after text e = record e { sent = text ∷ e.sent }

-- `answers k` is what msgsnd answers to the k-th message.
unfoldable pub unsub_loop : ℕ → Store Bytes → ℤ → (ℕ → Sending) → ℕ → Ptr → Run Ended
unsub_loop zero h pid answers k p = out_of_fuel
unsub_loop (suc fuel) h pid answers k p = if p == null then ok (ended none) else (do
  n ← load h p
  text ← generate_unsub_messege pid n.value
  elim (answers k) [
    | accepted ↦ unsub_loop fuel h pid answers (suc k) n.next >>= λ e. ok (ended_after text e)
    | removed ↦ ok (ended (some (pos 0)))
    | failed ↦ ok (ended (some (negsuc 0)))
  ])

unfoldable pub unsub_for_broker : Own → ℤ → (ℕ → Sending) → Run Ended
unfolding unsub_loop
unsub_for_broker own pid answers = unsub_loop (suc own.nodes) own.topics pid answers 0 own.list.head

-- publisher_process: the message is offered once, and nothing depends on the answer.
unfoldable pub publisher_process : Bytes → Bool → List Bytes
publisher_process text taken = if taken then text ∷ [] else []

-- A round of the publisher's loop sends the text whatever generate_messege returns.
unfoldable pub publish : Generated → Bool → List Bytes
unfolding publisher_process
publish generated taken = publisher_process generated.text taken
