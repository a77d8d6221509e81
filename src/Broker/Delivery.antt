-- ===== src/Broker/Delivery.antt =====
-- From the publisher to the subscribers: a message of 02/src/publisher.c on its way through the broker.
use eltex_modul.Common.{
  ℕ, ◌<◌, length, ◌≡◌, refl, ap, ◌∙◌, Bool, true, false, some, List, [], ◌∷◌, if◌then◌else◌, arith,
}
use eltex_modul.Common.Int.{ℤ, InInt32}
use eltex_modul.Common.Text.{Bytes, utf8}
use eltex_modul.Broker.Memory.{ok}
use eltex_modul.Broker.Header.{
  text_fits, Control, parsed, parse_message, max_topic_size, max_command_size, max_text_size,
}
use eltex_modul.Broker.Message.{message_text, IsField, parse-message_text}
use eltex_modul.Broker.Process.{World, Mallocs, Outcome, outcome, broker_process}
use eltex_modul.Broker.Book.{Book, entries, book_of, audience, dispatch, send, answer}
use eltex_modul.Broker.Audience.{mail, mail-audience, Memory}
use eltex_modul.Broker.Refine.{Refined, process-Does}
use eltex_modul.Broker.Serve.{Input, Usual, Served, asked, Served-Faithful}

send-IsField : IsField max_command_size (utf8 "send")
send-IsField = record {
  full = omega arith;
  short = omega arith;
  no_comma = ground arith;
  one_line = ground arith;
}

sent-dispatch :
    (accepts : ℕ → Bool) (text : Bytes) (c : Control) (b : Book)
    → (send false accepts text c b).sent
      ≡ (dispatch accepts 0 text (audience c.topic b.subscribers)).0
unfolding send
sent-dispatch accepts text c b = ground arith

send_control : ℤ → Bytes → Control
send_control pid topic = record { command = utf8 "send"; sender_pid = pid; topic = topic }

text_fits-short : (text : Bytes) → length text < max_text_size → text_fits text ≡ true
unfolding text_fits
text_fits-short text h = ground arith

answer-send :
    (m : Mallocs) (accepts : ℕ → Bool) (text : Bytes) (pid : ℤ) (topic : Bytes) (b : Book)
    → Memory m
    → length text < max_text_size
    → answer m accepts text (parsed (send_control pid topic)) b
      ≡ some (send false accepts text (send_control pid topic) b)
unfolding answer send_control
answer-send m accepts text pid topic b mem short =
    rw (text_fits-short text short, mem.for_publisher) refl

-- What a process is sent when a message is published.
pub record Published (is : List Input) (w : World) (i : Input) (topic : Bytes) : Type 0 where
  pub after : Outcome
  pub run : broker_process w i.mallocs i.accepts i.received i.text ≡ ok after
  pub mail : (pid : ℤ) → mail pid after.sent ≡ (if asked pid topic is then i.text ∷ [] else [])

-- After any messages from the start of the broker on, with no crash and no failing malloc so far, a
-- publisher sends a message of less than 8192 bytes on a topic, and the queue takes what the broker sends. Then broker_process
-- comes to its end, and each process that has asked for the topic in one of the earlier messages is
-- sent the whole text once, however often it asked; no other process is sent anything.
pub publish-Published :
    (msqid : ℤ) {is : List Input} {w : World} (i : Input) (publisher : ℤ) (topic body : Bytes)
    → Served msqid is w
    → Usual w i
    → ((k : ℕ) → i.accepts k ≡ true)
    → InInt32 publisher
    → IsField max_topic_size topic
    → length i.text < max_text_size
    → i.text ≡ message_text (utf8 "send") publisher topic body
    → Published is w i topic
unfolding send_control
publish-Published msqid {is} {w} i publisher topic body s u all p t short e =
    let f = Served-Faithful msqid s in
    let b = book_of f.views f.pubs in
    let c = send_control publisher topic in
    let says : answer i.mallocs i.accepts i.text (parse_message i.text) b
        ≡ some (send false i.accepts i.text c b) =
      ap (λ x. answer i.mallocs i.accepts i.text x b)
        (ap parse_message e
          ∙ parse-message_text (utf8 "send") publisher topic body send-IsField p t)
      ∙ answer-send i.mallocs i.accepts i.text publisher topic b u.memory short in
    let d : Refined (broker_process w i.mallocs i.accepts i.received i.text)
        (send false i.accepts i.text c b) =
      rw says at (
        process-Does w f.views f.pubs i.mallocs i.accepts i.received i.text f.holds u.fresh
          u.some_bytes) in
    let a = send false i.accepts i.text c b in
    record {
      after = outcome d.world a.sent a.result;
      run = d.run;
      mail = λ pid.
          ap (mail pid) (sent-dispatch i.accepts i.text c b)
          ∙ mail-audience i.accepts 0 pid topic i.text (entries f.views) all f.unique
          ∙ ap (λ x. if x then i.text ∷ [] else []) (f.asks_asked pid topic);
    }
