-- ===== src/Sniffer/Frame.antt =====
-- An Ethernet frame with a UDP packet, as the protocols lay it out. It is written without reference
-- to the parser of 08/udp_sniffer.c, which is measured by it.
use eltex_modul.Common.{ℕ, ◌+◌, ◌*◌, ◌/◌, ◌%◌, ◌≤◌, ◌≡◌, [], ◌∷◌, ◌++◌, length}
use eltex_modul.Common.Text.{Bytes}

-- Two bytes, the high one first.
abbrev pub be16 : ℕ → Bytes
be16 n = n / 256 ∷ n % 256 ∷ []

pub record Mac : Type 0 where
  pub a : ℕ
  pub b : ℕ
  pub c : ℕ
  pub d : ℕ
  pub e : ℕ
  pub f : ℕ

pub record Ip : Type 0 where
  pub w : ℕ
  pub x : ℕ
  pub y : ℕ
  pub z : ℕ

abbrev pub mac_bytes : Mac → Bytes
mac_bytes m = m.a ∷ m.b ∷ m.c ∷ m.d ∷ m.e ∷ m.f ∷ []

abbrev pub ip_bytes : Ip → Bytes
ip_bytes p = p.w ∷ p.x ∷ p.y ∷ p.z ∷ []

-- `words` is the number of option words of the IP header; the fields that the sniffer does not read
-- are arbitrary.
pub record Frame : Type 0 where
  pub dest_mac : Mac
  pub src_mac : Mac
  pub tos : ℕ
  pub total : ℕ
  pub ident : ℕ
  pub fragment : ℕ
  pub ttl : ℕ
  pub checksum : ℕ
  pub src_ip : Ip
  pub dest_ip : Ip
  pub words : ℕ
  pub options : Bytes
  pub src_port : ℕ
  pub dest_port : ℕ
  pub udp_checksum : ℕ
  pub content : Bytes

pub record IsFrame (f : Frame) : Type 0 where
  pub few : f.words ≤ 10
  pub whole : length f.options ≡ 4 * f.words

-- The Ethernet header and the fixed part of the IP header.
abbrev pub front : Frame → Bytes
front f =
    mac_bytes f.dest_mac
    ++ mac_bytes f.src_mac
    ++ be16 0x0800
    ++ (4 * 16 + (5 + f.words))
      ∷ f.tos
      ∷ (be16 f.total
          ++ be16 f.ident
          ++ be16 f.fragment
          ++ f.ttl ∷ 17 ∷ (be16 f.checksum ++ ip_bytes f.src_ip ++ ip_bytes f.dest_ip))

-- The UDP header and the data.
abbrev pub datagram : Frame → Bytes
datagram f =
    be16 f.src_port
    ++ be16 f.dest_port
    ++ be16 (8 + length f.content)
    ++ be16 f.udp_checksum
    ++ f.content

unfoldable pub frame_bytes : Frame → Bytes
frame_bytes f = front f ++ (f.options ++ datagram f)
