-- ===== src/Chat.antt =====
-- The chat by UDP broadcast, 06/main.c.
--
-- The state of the loop is the C string that `buffer` holds, which both halves of a round use. What
-- select, recvfrom, getsockname and fgets answer are arguments; what the program does is the list of
-- what it sends and shows, and the end of its socket. The prompt is left out. A round takes place when select has returned.
pub mod Rounds
pub mod Start
mod Tests
use eltex_modul.Common.{
  ℕ, zero, suc, ◌+◌, ◌-◌, Bool, true, false, not, ◌||◌, Option, none, some, List, [], ◌∷◌, ◌++◌,
  if◌then◌else◌, ltb, leb, ◌==◌, take,
}
use eltex_modul.Common.Int.{ℤ, pos, negsuc, to_u32, of_u32}
use eltex_modul.Common.Text.{Bytes, cut_newline, c_str}
use eltex_modul.Common.Decimal.{atoi}

abbrev pub port : ℕ
port = 8888

abbrev pub buffer_size : ℕ
buffer_size = 1024

-- `none` is the exit for a wrong port.
abbrev pub valid_port : ℤ → Option ℕ
valid_port (negsuc n) = none
valid_port (pos n) = if (n == 0) || ltb 65535 n then none else some n

-- The port, given argv[1] if it is there.
unfoldable pub choose_port : Option Bytes → Option ℕ
unfolding atoi
choose_port none = some port
choose_port (some argument) = valid_port (atoi argument)

-- An address is the 32 bits of `s_addr`.
pub data Effect : Type 0 where
  sendto : Bytes → Effect
  show : ℕ → Bytes → Effect
  close : Effect

-- What recvfrom gives: the sender and the bytes.
pub record Packet : Type 0 where
  pub sender : ℕ
  pub bytes : Bytes

pub record Round : Type 0 where
  pub effects : List Effect
  pub buffer : Bytes

abbrev pub nothing : Bytes → Round
nothing buffer = record { effects = []; buffer = buffer }

abbrev pub show_packet : ℕ → Bytes → ℕ → Bytes → Round
show_packet local_address buffer sender [] = nothing buffer
show_packet local_address buffer sender (b ∷ bs) =
    let text = c_str (take (buffer_size - 1) (b ∷ bs)) in
    record {
      effects = if not (sender == local_address) then show sender text ∷ [] else [];
      buffer = text;
    }

-- A packet that has come: `none` when recvfrom fails. `local_address` is what getsockname gives.
unfoldable pub receive : ℕ → Bytes → Option Packet → Round
unfolding c_str
receive local_address buffer none = nothing buffer
receive local_address buffer (some p) = show_packet local_address buffer p.sender p.bytes

-- The text that `fgets` leaves in the buffer, of which it reads at most one byte less than the size:
-- that of the line, or at the end of the input what was there before.
unfoldable pub read_line : Bytes → Option Bytes → Bytes
unfolding c_str
read_line buffer none = buffer
read_line buffer (some line) = c_str (take (buffer_size - 1) line)

abbrev pub send_text : Bytes → Round
send_text [] = nothing []
send_text (b ∷ bs) = record { effects = sendto (b ∷ bs) ∷ []; buffer = b ∷ bs }

unfoldable pub send_line : Bytes → Option Bytes → Round
unfolding cut_newline read_line
send_line buffer line = send_text (cut_newline (read_line buffer line))

-- What select has found: a packet, and a line or the end of the input.
pub record Ready : Type 0 where
  pub socket : Option (Option Packet)
  pub input : Option (Option Bytes)

abbrev pub socket_part : ℕ → Bytes → Option (Option Packet) → Round
socket_part local_address buffer none = nothing buffer
socket_part local_address buffer (some packet) = receive local_address buffer packet

abbrev pub input_part : Bytes → Option (Option Bytes) → Round
input_part buffer none = nothing buffer
input_part buffer (some line) = send_line buffer line

-- One round of the loop: first the packet, then the line.
unfoldable pub chat_round : ℕ → Bytes → Ready → Round
unfolding receive send_line
chat_round local_address buffer ready =
    let first = socket_part local_address buffer ready.socket in
    let second = input_part first.buffer ready.input in
    record { effects = first.effects ++ second.effects; buffer = second.buffer }

unfoldable pub chat : ℕ → Bytes → List Ready → Round
unfolding chat_round
chat local_address buffer [] = nothing buffer
chat local_address buffer (r ∷ rs) =
    let first = chat_round local_address buffer r in
    let rest = chat local_address first.buffer rs in
    record { effects = first.effects ++ rest.effects; buffer = rest.buffer }
