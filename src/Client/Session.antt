-- ===== src/Client/Session.antt =====
-- main of 07/client.c: the greeting, the loop over select, and the end.
--
-- A round takes place when select has returned; the rounds end when a signal interrupts it.
use eltex_modul.Common.{
  ℕ, ◌-◌, Bool, true, Option, none, some, List, [], ◌∷◌, ◌++◌, if◌then◌else◌, ltb, ◌==◌, length,
  take,
}
use eltex_modul.Common.Text.{Bytes, utf8, c_str, cut_newline, snprintf}
use eltex_modul.Client.{
  Effect, send, show, close, message_size, Packets, Junk, Outcome, handle_server_message,
  handle_console_command,
}

abbrev pub username_size : ℕ
username_size = 32

-- What one round of select finds: whether the server has sent something, and what fgets gives, if there
-- is input, `none` at its end. The rest is what the calls in the handlers find.
pub record Ready : Type 0 where
  pub socket : Bool
  pub input : Option (Option Bytes)
  pub opened : Bool
  pub file : Option Bytes
  pub junk : Junk

pub record State : Type 0 where
  pub running : Bool
  pub buffer : Bytes
  pub packets : Packets
  pub effects : List Effect

abbrev pub next_packet : Ready → Packets → Outcome
next_packet r [] = handle_server_message r.opened (some []) r.junk []
next_packet r (p ∷ ps) = handle_server_message r.opened p r.junk ps

abbrev pub quiet : Packets → Outcome
quiet ps = record { running = true; effects = []; rest = ps }

unfoldable pub server_part : Ready → Packets → Outcome
server_part r ps = if r.socket then next_packet r ps else quiet ps

-- The buffer after fgets, which leaves it alone at the end of the input.
unfoldable pub read_input : Bytes → Option Bytes → Bytes
read_input buffer none = buffer
read_input buffer (some line) = c_str (take (message_size - 1) line)

abbrev pub command_part : Ready → Bytes → Option (List Effect)
command_part r buffer =
    if length buffer == 0
    then some (show (utf8 "> ") ∷ [])
    else handle_console_command buffer r.file

abbrev pub typed_part : Ready → Bytes → Option (Bytes × List Effect)
typed_part r typed = elim (command_part r typed) [ none ↦ none | some es ↦ some (typed, es) ]

abbrev pub input_part : Ready → Bytes → Option (Option Bytes) → Option (Bytes × List Effect)
input_part r buffer none = some (buffer, [])
input_part r buffer (some input) = typed_part r (cut_newline (read_input buffer input))

-- Both halves of a round; the loop is left after the second, also when the server is gone.
unfoldable pub select_round : Ready → Bytes → Packets → Option State
select_round r buffer ps =
    let o = server_part r ps in
    elim (input_part r buffer r.input) [
      | none ↦ none
      | some b ↦ some (record {
        running = o.running;
        buffer = b.0;
        packets = o.rest;
        effects = o.effects ++ b.1;
      })
    ]

abbrev pub farewell : Bytes → List Effect
farewell name = send (snprintf message_size (utf8 "CLOSE:" ++ name)) ∷ close ∷ []

unfoldable pub select_loop : Bytes → List Ready → Bytes → Packets → Option (List Effect)
select_loop name [] buffer ps = some (farewell name)
select_loop name (r ∷ rs) buffer ps = elim (select_round r buffer ps) [
  | none ↦ none
  | some s ↦ elim (select_loop name rs s.buffer s.packets) [
    | none ↦ if s.running then none else some (s.effects ++ farewell name)
    | some es ↦ some (s.effects ++ (if s.running then es else farewell name))
  ]
]

-- The whole program, once it is connected; `none` where an array overflows, as `username` does.
-- `buffer` is what the buffer for the input holds at first.
unfoldable pub session : Bytes → Bytes → List Ready → Packets → Option (List Effect)
session name buffer rs ps =
    if ltb (length name) username_size
    then elim (select_loop name rs buffer ps) [
      | none ↦ none
      | some es ↦ some (send (snprintf message_size (utf8 "INIT:" ++ name)) ∷ es)
    ]
    else none
