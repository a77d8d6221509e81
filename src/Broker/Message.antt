-- ===== src/Broker/Message.antt =====
-- The texts that the clients of the broker send, and what its parser makes of them.
use eltex_modul.Common.{
  ℕ, ◌+◌, ◌<◌, ◌≡◌, refl, sym, ap, ◌∙◌, false, some, [], ◌∷◌, ◌++◌, ltb, arith, length,
  length-append, append_assoc, append-nil,
}
use eltex_modul.Common.Int.{ℤ, InInt32}
use eltex_modul.Common.Text.{Bytes, span, span-all, span-whole, AllOf, AllOf-append}
use eltex_modul.Common.Decimal.{print_ℤ, atoi-print, print-AllOf, length-print, print-full}
use eltex_modul.Broker.Header.{
  max_command_size, max_pid_size, max_topic_size, parsed, not_comma, not_newline, comma_count,
  drop_commas, token_of, strtok, fitting, copy_token, parse_fields, parse_line, parse_message,
}

-- The text of generate_messege before it is copied: "<command>,<pid>,<topic>\n<body>".
unfoldable pub message_text : Bytes → ℤ → Bytes → Bytes → Bytes
message_text command pid topic body =
    command ++ b',' ∷ (print_ℤ pid ++ b',' ∷ (topic ++ b'\n' ∷ body))

-- A field that stands in the header as it is: not empty, with no comma and no newline, and shorter
-- than its buffer.
pub record IsField (size : ℕ) (field : Bytes) : Type 0 where
  pub full : 0 < length field
  pub short : length field < size
  pub no_comma : AllOf not_comma field
  pub one_line : AllOf not_newline field

drop_commas-field :
    (field rest : Bytes)
    → 0 < length field
    → AllOf not_comma field
    → drop_commas (field ++ rest) ≡ field ++ rest
unfolding drop_commas
drop_commas-field [] rest full h = absurd (omega arith)
drop_commas-field (c ∷ cs) rest full h = ground (arith, h.0)

token_of-full : (s : Bytes) → 0 < length s → token_of s ≡ some (span not_comma (length s) s)
token_of-full [] h = absurd (omega arith)
token_of-full (c ∷ cs) h = refl

strtok-field :
    (size : ℕ) (field rest : Bytes)
    → IsField size field
    → strtok (field ++ b',' ∷ rest) ≡ some (field, b',' ∷ rest)
unfolding strtok
strtok-field size field rest h =
    let s = field ++ b',' ∷ rest in
    let size_eq = length-append field (b',' ∷ rest) in
    ap token_of (drop_commas-field field (b',' ∷ rest) h.full h.no_comma)
    ∙ token_of-full s (omega (arith, h.full, size_eq))
    ∙ ap some
        (span-all not_comma (length s) field b',' rest h.no_comma (omega (arith, size_eq)) refl)

strtok-last : (size : ℕ) (field : Bytes) → IsField size field → strtok field ≡ some (field, [])
unfolding strtok
strtok-last size field h =
    ap (λ s. token_of (drop_commas s)) (sym (append-nil field))
    ∙ ap token_of (drop_commas-field field [] h.full h.no_comma)
    ∙ ap token_of (append-nil field)
    ∙ token_of-full field h.full
    ∙ ap some (span-whole not_comma (length field) field h.no_comma (omega arith))

-- The comma before a token is skipped.
strtok-comma : (s : Bytes) → strtok (b',' ∷ s) ≡ strtok s
unfolding strtok drop_commas
strtok-comma s = refl

fitting-short :
    (size : ℕ) (t r : Bytes) → length t < size → fitting size (some (t, r)) ≡ some (t, r)
fitting-short size t r h = ground arith

copy_token-field :
    (size : ℕ) (field rest : Bytes)
    → IsField size field
    → copy_token size (field ++ b',' ∷ rest) ≡ some (field, b',' ∷ rest)
unfolding copy_token
copy_token-field size field rest h =
    ap (fitting size) (strtok-field size field rest h)
    ∙ fitting-short size field (b',' ∷ rest) h.short

copy_token-comma : (size : ℕ) (s : Bytes) → copy_token size (b',' ∷ s) ≡ copy_token size s
unfolding copy_token
copy_token-comma size s = ap (fitting size) (strtok-comma s)

copy_token-last :
    (size : ℕ) (field : Bytes) → IsField size field → copy_token size field ≡ some (field, [])
unfolding copy_token
copy_token-last size field h =
    ap (fitting size) (strtok-last size field h) ∙ fitting-short size field [] h.short

comma_count-append : (s t : Bytes) → comma_count (s ++ t) ≡ comma_count s + comma_count t
unfolding comma_count
comma_count-append [] t = omega arith
comma_count-append (c ∷ s) t = ground (arith, comma_count-append s t)

two_commas :
    (command : Bytes) (pid : ℤ) (topic : Bytes)
    → ltb (comma_count (command ++ b',' ∷ (print_ℤ pid ++ b',' ∷ topic))) 2 ≡ false
unfolding comma_count
two_commas command pid topic = ground (
  arith,
  comma_count-append command (b',' ∷ (print_ℤ pid ++ b',' ∷ topic)),
  comma_count-append (print_ℤ pid) (b',' ∷ topic),
)

print-IsField : (pid : ℤ) → InInt32 pid → IsField max_pid_size (print_ℤ pid)
print-IsField pid h = record {
  full = print-full pid;
  short = omega (arith, length-print pid h);
  no_comma = print-AllOf not_comma (λ d k. ground arith) refl pid;
  one_line = print-AllOf not_newline (λ d k. ground arith) refl pid;
}

abbrev header_of : Bytes → ℤ → Bytes → Bytes
header_of command pid topic = command ++ b',' ∷ (print_ℤ pid ++ b',' ∷ topic)

message_text-header :
    (command : Bytes) (pid : ℤ) (topic body : Bytes)
    → message_text command pid topic body ≡ header_of command pid topic ++ b'\n' ∷ body
unfolding message_text
message_text-header command pid topic body = sym (
    append_assoc command (b',' ∷ (print_ℤ pid ++ b',' ∷ topic)) (b'\n' ∷ body)
    ∙ ap (λ r. command ++ b',' ∷ r) (append_assoc (print_ℤ pid) (b',' ∷ topic) (b'\n' ∷ body)))

header_of-one_line :
    (command : Bytes) (pid : ℤ) (topic : Bytes)
    → IsField max_command_size command
    → InInt32 pid
    → IsField max_topic_size topic
    → AllOf not_newline (header_of command pid topic)
header_of-one_line command pid topic c p t =
    AllOf-append not_newline command (b',' ∷ (print_ℤ pid ++ b',' ∷ topic)) c.one_line (
      refl,
      AllOf-append not_newline (print_ℤ pid) (b',' ∷ topic) (print-IsField pid p).one_line
          (refl, t.one_line),
    )

parse_fields-header :
    (command : Bytes) (pid : ℤ) (topic : Bytes)
    → IsField max_command_size command
    → InInt32 pid
    → IsField max_topic_size topic
    → parse_fields (header_of command pid topic)
      ≡ parsed (record { command = command; sender_pid = pid; topic = topic })
unfolding parse_fields
parse_fields-header command pid topic c p t =
    let enough : ltb (comma_count (header_of command pid topic)) 2 ≡ false =
      two_commas command pid topic in
    rw (enough, copy_token-field max_command_size command (print_ℤ pid ++ b',' ∷ topic) c)
      (rw (copy_token-comma max_pid_size (print_ℤ pid ++ b',' ∷ topic)) (
        rw (copy_token-field max_pid_size (print_ℤ pid) topic (print-IsField pid p)) (
          rw (copy_token-comma max_topic_size topic, copy_token-last max_topic_size topic t)
            (ap (λ n. parsed (record { command = command; sender_pid = n; topic = topic }))
              (atoi-print pid p)))))

parse_line-header : (header body : Bytes) → parse_line (header, b'\n' ∷ body) ≡ parse_fields header
parse_line-header header body = refl

-- What a client writes into a message, the broker reads out of it: the command, its pid and the topic,
-- whatever the body is. The fields have to fit their buffers and hold neither comma nor newline.
pub parse-message_text :
    (command : Bytes) (pid : ℤ) (topic body : Bytes)
    → IsField max_command_size command
    → InInt32 pid
    → IsField max_topic_size topic
    → parse_message (message_text command pid topic body)
      ≡ parsed (record { command = command; sender_pid = pid; topic = topic })
unfolding parse_message
parse-message_text command pid topic body c p t =
    let header = header_of command pid topic in
    let text = header ++ b'\n' ∷ body in
    ap parse_message (message_text-header command pid topic body)
    ∙ ap parse_line (
        span-all not_newline (length text) header b'\n' body
          (header_of-one_line command pid topic c p t)
          (omega (arith, length-append header (b'\n' ∷ body))) refl)
    ∙ parse_fields-header command pid topic c p t
