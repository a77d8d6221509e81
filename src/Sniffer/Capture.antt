-- ===== src/Sniffer/Capture.antt =====
-- `capture_packets` of 08/udp_sniffer.c: the loop over the packets that the socket gives.
use eltex_modul.Common.{
  ℕ, ◌+◌, Bool, Option, none, some, List, [], ◌∷◌, ◌++◌, if◌then◌else◌, length, drop,
}
use eltex_modul.Common.Text.{Bytes}
use eltex_modul.Sniffer.{
  Timeval, PacketInfo, Parsed, rejected, parsed, fault, parse_packet, check_filter,
}

-- What `recvfrom` gives, with the answers of `malloc` and `gettimeofday`.
pub data Arrival : Type 0 where
  failed : Arrival
  packet : Bytes → Bool → Timeval → Arrival

-- `allocs` and `frees` count the blocks that `malloc` gave and that `free` took.
pub record Capture : Type 0 where
  pub buffer : Bytes
  pub info : PacketInfo
  pub packet_count : ℕ
  pub allocs : ℕ
  pub frees : ℕ
  pub printed : List PacketInfo

abbrev pub blocks : Option Bytes → ℕ
blocks none = 0
blocks (some b) = 1

-- `free` of a pointer that is not NULL.
unfoldable pub free : PacketInfo → Capture → Capture
free p s = record s { info = p; frees = s.frees + blocks p.payload }

-- What is done with a packet that was parsed: `p` is its record.
unfoldable pub parsed_packet : Bytes → Timeval → Capture → PacketInfo → Capture
unfolding free
parsed_packet filter_type now s p =
    let p' : PacketInfo = record p { timestamp = now } in
    if check_filter filter_type p
    then free p' (record s { packet_count = s.packet_count + 1; printed = s.printed ++ p' ∷ [] })
    else free p s

unfoldable pub after_parse : Bytes → Timeval → Capture → Parsed → Option Capture
unfolding parsed_packet
after_parse filter_type now s (rejected p) = some (record s { info = p })
after_parse filter_type now s (parsed p n) =
    some (parsed_packet filter_type now (record s { allocs = s.allocs + n }) p)
after_parse filter_type now s fault = none

-- The new bytes lie over the old contents of the buffer.
abbrev pub overwrite : Bytes → Bytes → Bytes
overwrite bytes buffer = bytes ++ drop (length bytes) buffer

-- One round of the loop; `none` is a copy past the end of the buffer.
unfoldable pub capture_round : Bytes → Capture → Arrival → Option Capture
unfolding after_parse
capture_round filter_type s failed = some s
capture_round filter_type s (packet bytes allocated now) =
    let buffer = overwrite bytes s.buffer in
    after_parse filter_type now (record s { buffer = buffer })
      (parse_packet buffer (length bytes) allocated s.info)

-- The loop ends where the list ends, when SIGINT clears `capture_running`.
unfoldable pub capture_packets : Bytes → Capture → List Arrival → Option Capture
capture_packets filter_type s [] = some s
capture_packets filter_type s (a ∷ rest) = elim (capture_round filter_type s a) [
  | none ↦ none
  | some s' ↦ capture_packets filter_type s' rest
]
