-- ===== src/Broker/Header.antt =====
-- The first line of a message, "<command>,<pid>,<topic>", which broker_process of 02/src/broker.c and
-- subscriber_process of 02/src/main_sub.c take apart with one and the same code.
--
-- A message is the C string that its text holds.
use eltex_modul.Common.{
  ℕ, suc, Bool, not, Option, none, some, [], ◌∷◌, ◌==◌, ltb, if◌then◌else◌, length,
}
use eltex_modul.Common.Int.{ℤ}
use eltex_modul.Common.Text.{Bytes, span}
use eltex_modul.Common.Decimal.{atoi}

-- MAX_COMMAND_SIZE, MAX_PID_SIZE and MAX_TOPIC_SIZE.
abbrev pub max_command_size : ℕ
max_command_size = 20

abbrev pub max_pid_size : ℕ
max_pid_size = 20

abbrev pub max_topic_size : ℕ
max_topic_size = 255

-- MAX_TEXT_SIZE, which is also MAX_HEADER_SIZE.
abbrev pub max_text_size : ℕ
max_text_size = 8192

pub record Control : Type 0 where
  pub command : Bytes
  pub sender_pid : ℤ
  pub topic : Bytes

-- `crash`: a NULL of strtok is copied, or a field overflows its buffer.
pub data Parsed : Type 0 where
  no_newline : Parsed
  few_commas : Parsed
  crash : Parsed
  parsed : Control → Parsed

abbrev pub not_comma : ℕ → Bool
not_comma c = not (c == b',')

abbrev pub not_newline : ℕ → Bool
not_newline c = not (c == b'\n')

unfoldable pub comma_count : Bytes → ℕ
comma_count [] = 0
comma_count (c ∷ cs) = if c == b',' then suc (comma_count cs) else comma_count cs

unfoldable pub drop_commas : Bytes → Bytes
drop_commas [] = []
drop_commas (c ∷ cs) = if c == b',' then drop_commas cs else c ∷ cs

abbrev pub token_of : Bytes → Option (Bytes × Bytes)
token_of [] = none
token_of (c ∷ cs) = some (span not_comma (length (c ∷ cs)) (c ∷ cs))

-- `strtok(s, ",")`: the token, and what the next call goes on with; `none` is NULL.
unfoldable pub strtok : Bytes → Option (Bytes × Bytes)
unfolding drop_commas span
strtok s = token_of (drop_commas s)

abbrev pub fitting : ℕ → Option (Bytes × Bytes) → Option (Bytes × Bytes)
fitting size none = none
fitting size (some (token, rest)) = if ltb (length token) size then some (token, rest) else none

-- `strcpy` of a token into a buffer of `size` bytes; `none` where that has no defined result.
unfoldable pub copy_token : ℕ → Bytes → Option (Bytes × Bytes)
unfolding strtok
copy_token size s = fitting size (strtok s)

abbrev pub parsed_topic : Bytes → Bytes → Option (Bytes × Bytes) → Parsed
parsed_topic command pid none = crash
parsed_topic command pid (some (topic, rest)) =
    parsed (record { command = command; sender_pid = atoi pid; topic = topic })

abbrev pub parsed_pid : Bytes → Option (Bytes × Bytes) → Parsed
parsed_pid command none = crash
parsed_pid command (some (pid, rest)) = parsed_topic command pid (copy_token max_topic_size rest)

abbrev pub parsed_command : Option (Bytes × Bytes) → Parsed
parsed_command none = crash
parsed_command (some (command, rest)) = parsed_pid command (copy_token max_pid_size rest)

unfoldable pub parse_fields : Bytes → Parsed
unfolding copy_token atoi comma_count
parse_fields header =
    if ltb (comma_count header) 2
    then few_commas
    else parsed_command (copy_token max_command_size header)

abbrev pub parse_line : Bytes × Bytes → Parsed
parse_line (header, []) = no_newline
parse_line (header, c ∷ rest) = parse_fields header

-- The bytes before the first newline, all where there is none.
unfoldable pub header_length : Bytes → ℕ
unfolding span
header_length text = length (span not_newline (length text) text).0

-- Whether the whole string, with its zero byte, lies in the array of the message. What the code copies out
-- of it, into `text` and `snd_mes.text` of the same size, then fits too.
unfoldable pub text_fits : Bytes → Bool
text_fits text = ltb (length text) max_text_size

-- Whether the newline does, and `header` with its zero byte.
unfoldable pub header_fits : Bytes → Bool
header_fits text = ltb (header_length text) max_text_size

unfoldable pub parse_message : Bytes → Parsed
unfolding parse_fields span
parse_message text = parse_line (span not_newline (length text) text)
