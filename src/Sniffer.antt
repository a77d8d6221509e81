-- ===== src/Sniffer.antt =====
-- The UDP sniffer of 08/udp_sniffer.c: the record of a packet, its parser and the filters.
--
-- A buffer is the list of its bytes. The code reads headers at fixed offsets of a buffer of
-- BUFFER_SIZE bytes, and copies the data with `memcpy`, whose reach is checked here: a copy past the
-- end of the buffer has no defined result and is a `fault`. Console prompts are left out.
pub mod Balance
pub mod Capture
pub mod Choices
pub mod Closing
pub mod Fields
pub mod Filter
pub mod Frame
pub mod Mac
pub mod Parse
pub mod Printing
pub mod Render
pub mod Setup
mod Tests
pub mod Time
pub mod Typing
use eltex_modul.Common.{
  ℕ, ◌+◌, ◌-◌, ◌*◌, ◌%◌, ◌≡◌, Bool, true, false, not, ◌||◌, Option, none, some, List, [], ◌∷◌, ◌++◌,
  if◌then◌else◌, ltb, leb, ◌==◌, length, take, drop, get_or,
}
use eltex_modul.Common.Int.{ℤ, pos, negsuc, ◌==ℤ◌}
use eltex_modul.Common.Text.{Bytes, utf8, str_eq}

abbrev pub buffer_size : ℕ
buffer_size = 65536

pub record Timeval : Type 0 where
  pub sec : ℤ
  pub usec : ℤ

-- `payload` is the block that `data` points to, or `none` for NULL.
pub record PacketInfo : Type 0 where
  pub timestamp : Timeval
  pub src_mac : Bytes
  pub dest_mac : Bytes
  pub src_ip : Bytes
  pub dest_ip : Bytes
  pub src_port : ℕ
  pub dest_port : ℕ
  pub payload : Option Bytes
  pub data_len : ℕ

-- -1 with what has been written so far, 0 with the packet and the number of blocks that `malloc`
-- gave, or a copy past the end of the buffer.
pub data Parsed : Type 0 where
  rejected : PacketInfo → Parsed
  parsed : PacketInfo → ℕ → Parsed
  fault : Parsed

abbrev pub byte : Bytes → ℕ → ℕ
byte buffer i = get_or buffer i 0

-- ntohs of the two bytes at `i`.
abbrev pub word : Bytes → ℕ → ℕ
word buffer i = byte buffer i * 256 + byte buffer (i + 1)

abbrev pub slice : Bytes → ℕ → ℕ → Bytes
slice buffer i n = take n (drop i buffer)

-- memcpy of `n` bytes from offset `i`.
unfoldable pub copy_out : Bytes → ℕ → ℕ → Option Bytes
copy_out buffer i n = if leb (i + n) (length buffer) then some (slice buffer i n) else none

-- The offset of the UDP header: `ihl` is the low half of the first byte of the IP header.
unfoldable pub udp_offset : Bytes → ℕ
udp_offset buffer = 14 + byte buffer 14 % 16 * 4

unfoldable pub with_payload : PacketInfo → Option Bytes → ℕ → Parsed
with_payload p none n = fault
with_payload p (some block) n =
    parsed (record p { payload = some (block ++ 0 ∷ []); data_len = n }) 1

abbrev pub no_payload : PacketInfo → Parsed
no_payload p = parsed (record p { payload = none; data_len = 0 }) 0

abbrev pub with_ports : Bytes → PacketInfo → PacketInfo
with_ports buffer p =
    let udp = udp_offset buffer in
    record p { src_port = word buffer udp; dest_port = word buffer (udp + 2) }

-- From the UDP header on. `allocated`: whether `malloc` gives a block.
unfoldable pub parse_udp : Bytes → Bool → PacketInfo → Parsed
unfolding copy_out with_payload udp_offset
parse_udp buffer allocated p =
    let udp = udp_offset buffer in
    let p' = with_ports buffer p in
    let n = word buffer (udp + 4) - 8 in
    if ltb 8 (word buffer (udp + 4))
    then if allocated then with_payload p' (copy_out buffer (udp + 8) n) n else no_payload p'
    else no_payload p'

abbrev pub with_macs : Bytes → PacketInfo → PacketInfo
with_macs buffer p = record p { src_mac = slice buffer 6 6; dest_mac = slice buffer 0 6 }

abbrev pub with_ips : Bytes → PacketInfo → PacketInfo
with_ips buffer p = record p { src_ip = slice buffer 26 4; dest_ip = slice buffer 30 4 }

unfoldable pub parse_packet : Bytes → ℕ → Bool → PacketInfo → Parsed
unfolding parse_udp
parse_packet buffer data_size allocated p =
    if ltb data_size (14 + 20 + 8)
    then rejected p
    else if not (word buffer 12 == 0x0800)
    then rejected p
    else if not (byte buffer 23 == 17)
    then rejected (with_macs buffer p)
    else parse_udp buffer allocated (with_ips buffer (with_macs buffer p))

abbrev pub uses_port : ℕ → PacketInfo → Bool
uses_port port p = p.src_port == port || p.dest_port == port

-- The argument is the global `filter_type`.
unfoldable pub check_filter : Bytes → PacketInfo → Bool
check_filter filter_type p =
    if str_eq filter_type (utf8 "chat")
    then uses_port 8888 p
    else if str_eq filter_type (utf8 "dns")
    then uses_port 53 p
    else if str_eq filter_type (utf8 "http")
    then uses_port 80 p
    else if str_eq filter_type (utf8 "all")
    then true
    else false

-- The name that is stored for the number that the user types.
unfoldable pub select_filter : ℤ → Bytes
select_filter choice =
    if choice ==ℤ pos 1
    then utf8 "chat"
    else if choice ==ℤ pos 2
    then utf8 "dns"
    else if choice ==ℤ pos 3
    then utf8 "http"
    else if choice ==ℤ pos 4
    then utf8 "all"
    else utf8 "all"
