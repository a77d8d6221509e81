-- ===== src/Broker/Generate.antt =====
-- generate_messege of 02/src/publisher.c and generate_unsub_messege of 02/src/main_sub.c: the messages that
-- the clients of the broker send.
use eltex_modul.Common.{
  ℕ, ◌%◌, ◌<◌, ◌≡◌, refl, ap, ◌∙◌, true, Option, some, [], ◌∷◌, ltb, if◌then◌else◌, arith, length,
}
use eltex_modul.Common.Int.{ℤ, pos, negsuc, InInt32}
use eltex_modul.Common.Text.{Bytes, utf8, c_str, c_str_id, AllOf, not_zero}
use eltex_modul.Broker.Memory.{Run, ok, fault, ◌>>=◌}
pub use eltex_modul.Broker.Header.{max_text_size}
use eltex_modul.Broker.Header.{parsed, parse_message, max_topic_size, max_command_size}
use eltex_modul.Broker.Message.{message_text, IsField, parse-message_text}
use eltex_modul.Broker.Lines.{get_str_by_file, nth_line, fits_or_fault, get_str-nth_line}

-- The two files, what `c` of get_str_by_file holds at first, the number that rand gives, and getpid.
pub record Setting : Type 0 where
  pub topics_file : Option Bytes
  pub texts_file : Option Bytes
  pub junk : ℕ
  pub random : ℕ
  pub pid : ℤ

-- The text of the message and the topic, as they are after the call; the code of the call.
pub record Generated : Type 0 where
  pub code : ℤ
  pub text : Bytes
  pub topic : Bytes

abbrev pub failed : ℤ → Generated → Generated
failed code old = record old { code = code }

-- The text, when no line was empty; `text` overflows where the message does not fit. strcat and strcpy stop
-- at the first zero byte of a line.
unfoldable pub compose : Bytes → ℤ → Bytes → Bytes → Run Generated
unfolding message_text c_str
compose command pid topic_buf text_buf =
    let text = message_text command pid (c_str topic_buf) (c_str text_buf) in
    if ltb (length text) max_text_size
    then ok (record { code = pos 0; text = text; topic = c_str topic_buf })
    else fault

abbrev pub with_body : Bytes → ℤ → Bytes → Generated → Bytes → Run Generated
with_body command pid topic old [] = ok (failed (negsuc 1) old)
with_body command pid topic old (c ∷ cs) = compose command pid topic (c ∷ cs)

abbrev pub with_topic : ℕ → Setting → Bytes → Generated → Bytes → Run Generated
with_topic fuel s command old [] = ok (failed (negsuc 0) old)
with_topic fuel s command old (c ∷ cs) = do
  body ← get_str_by_file fuel max_text_size s.junk s.texts_file (s.random % 20)
  with_body command s.pid (c ∷ cs) old body

-- `old` is what the message and the topic hold before the call.
unfoldable pub generate_messege : ℕ → Setting → Bytes → Generated → Run Generated
generate_messege fuel s command old = do
  topic ← get_str_by_file fuel max_topic_size s.junk s.topics_file (s.random % 20)
  with_topic fuel s command old topic

-- The message by which a topic is given up; its length is not checked.
unfoldable pub generate_unsub_messege : ℤ → Bytes → Run Bytes
unfolding message_text
generate_unsub_messege pid topic =
    let text = message_text (utf8 "unsubscribe") pid topic [] in
    if ltb (length text) max_text_size then ok text else fault

fits-ok : (size : ℕ) (line : Bytes) → length line < size → fits_or_fault size line ≡ ok line
fits-ok size line h = ground arith

with_topic-full :
    (fuel : ℕ) (s : Setting) (command topic : Bytes) (old : Generated)
    → 0 < length topic
    → with_topic fuel s command old topic ≡ (
        get_str_by_file fuel max_text_size s.junk s.texts_file (s.random % 20)
        >>= with_body command s.pid topic old)
with_topic-full fuel s command [] old h = absurd (omega arith)
with_topic-full fuel s command (c ∷ cs) old h = refl

with_body-full :
    (command : Bytes) (pid : ℤ) (topic body : Bytes) (old : Generated)
    → 0 < length body
    → with_body command pid topic old body ≡ compose command pid topic body
with_body-full command pid topic [] old h = absurd (omega arith)
with_body-full command pid topic (c ∷ cs) old h = refl

-- The two files have the line that is drawn, the topic is a field without a zero byte, and the whole, with
-- the text up to its first zero byte, fits a message.
pub record IsDrawn (fuel : ℕ) (s : Setting) (command topics texts : Bytes) : Type 0 where
  pub topics_there : s.topics_file ≡ some topics
  pub texts_there : s.texts_file ≡ some texts
  pub topics_fuel : length topics < fuel
  pub texts_fuel : length texts < fuel
  pub topic : IsField max_topic_size (nth_line (s.random % 20) topics)
  pub string : AllOf not_zero (nth_line (s.random % 20) topics)
  pub full : 0 < length (nth_line (s.random % 20) texts)
  pub short : length (nth_line (s.random % 20) texts) < max_text_size
  pub fits :
      length (
        message_text command s.pid
          (nth_line (s.random % 20) topics)
          (c_str (nth_line (s.random % 20) texts)))
      < max_text_size

compose-fits :
    (command : Bytes) (pid : ℤ) (topic body : Bytes)
    → AllOf not_zero topic
    → length (message_text command pid topic (c_str body)) < max_text_size
    → compose command pid topic body
      ≡ ok (record {
        code = pos 0;
        text = message_text command pid topic (c_str body);
        topic = topic;
      })
unfolding compose
compose-fits command pid topic body string h =
    let t : ltb (length (message_text command pid topic (c_str body))) max_text_size ≡ true =
      ground (arith, h) in
    rw (c_str_id topic string, t) refl

generate-text :
    (fuel : ℕ) (s : Setting) (command topics texts : Bytes) (old : Generated)
    → IsDrawn fuel s command topics texts
    → let topic = nth_line (s.random % 20) topics in
      let text = message_text command s.pid topic (c_str (nth_line (s.random % 20) texts)) in
      generate_messege fuel s command old ≡ ok (record { code = pos 0; text = text; topic = topic })
unfolding generate_messege
generate-text fuel s command topics texts old d =
    let num = s.random % 20 in
    let topic = nth_line num topics in
    let body = nth_line num texts in
    let first : get_str_by_file fuel max_topic_size s.junk s.topics_file num ≡ ok topic =
      ap (λ f. get_str_by_file fuel max_topic_size s.junk f num) d.topics_there
      ∙ get_str-nth_line fuel max_topic_size s.junk topics num d.topics_fuel
      ∙ fits-ok max_topic_size topic d.topic.short in
    let second : get_str_by_file fuel max_text_size s.junk s.texts_file num ≡ ok body =
      ap (λ f. get_str_by_file fuel max_text_size s.junk f num) d.texts_there
      ∙ get_str-nth_line fuel max_text_size s.junk texts num d.texts_fuel
      ∙ fits-ok max_text_size body d.short in
    rw first (
      with_topic-full fuel s command topic old d.topic.full
      ∙ rw second (
          with_body-full command s.pid topic body old d.full
          ∙ compose-fits command s.pid topic body d.string d.fits))

-- What a client generates is what the broker reads: when the files have the line that is drawn, that of the
-- topics with no comma and no zero byte, and the sizes fit, generate_messege succeeds, and the header of its text is parsed into the command, the pid of the
-- process and the topic of the file, the same topic that is noted for the process itself.
pub parse-generate :
    (fuel : ℕ) (s : Setting) (command topics texts : Bytes) (old : Generated)
    → IsField max_command_size command
    → InInt32 s.pid
    → IsDrawn fuel s command topics texts
    → (g : Generated) × (generate_messege fuel s command old ≡ ok g)
      × (g.code ≡ pos 0)
      × (g.topic ≡ nth_line (s.random % 20) topics)
      × (parse_message g.text
          ≡ parsed (record { command = command; sender_pid = s.pid; topic = g.topic }))
parse-generate fuel s command topics texts old c p d =
    let topic = nth_line (s.random % 20) topics in
    let body = nth_line (s.random % 20) texts in
    (
      record { code = pos 0; text = message_text command s.pid topic (c_str body); topic = topic },
      generate-text fuel s command topics texts old d,
      refl,
      refl,
      parse-message_text command s.pid topic (c_str body) c p d.topic,
    )
