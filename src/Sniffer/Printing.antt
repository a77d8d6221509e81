-- ===== src/Sniffer/Printing.antt =====
-- What capture_packets of 08/udp_sniffer.c prints stays inside the block of the data.
use eltex_modul.Common.{
  ℕ, ◌+◌, ◌≡◌, inl, inr, Option, none, some, List, [], ◌∷◌, ◌++◌, length, drop, min, Bool-cases,
  Option-cases,
}
use eltex_modul.Common.Text.{Bytes, AllOf, AllOf-append}
use eltex_modul.Sniffer.{
  Timeval, PacketInfo, Parsed, rejected, parsed, fault, parse_packet, check_filter,
}
use eltex_modul.Sniffer.Capture.{
  Arrival, failed, packet, Capture, free, parsed_packet, after_parse, overwrite, capture_round,
  capture_packets,
}
use eltex_modul.Sniffer.Render.{shown, shown_lem, is_visible, show_max}
use eltex_modul.Sniffer.Fields.{is_byte, drop-AllOf, Fits, FitsParsed, parse-Fits}

-- A packet as it is printed: its fields fit, and just as many bytes of its data are shown as there are,
-- at most 100, each of them a printable character.
pub record Printable (p : PacketInfo) : Type 0 where
  pub fields : Fits p
  pub text : AllOf is_visible (shown p)
  pub count : length (shown p) ≡ min p.data_len show_max

abbrev pub AllPrintable : List PacketInfo → Type 0
AllPrintable [] = Unit {0}
AllPrintable (p ∷ ps) = Printable p × AllPrintable ps

AllPrintable-snoc :
    (ps : List PacketInfo) (p : PacketInfo)
    → AllPrintable ps
    → Printable p
    → AllPrintable (ps ++ p ∷ [])
AllPrintable-snoc [] p h k = (k, tt)
AllPrintable-snoc (q ∷ qs) p h k = (h.0, AllPrintable-snoc qs p h.1 k)

Fits-Printable : (p : PacketInfo) → Fits p → Printable p
Fits-Printable p f =
    let (text, count) = shown_lem p f.inside in record { fields = f; text = text; count = count }

-- What the socket gives are bytes.
abbrev pub AllBytes : List Arrival → Type 0
AllBytes [] = Unit {0}
AllBytes (failed ∷ as') = AllBytes as'
AllBytes (packet bytes allocated now ∷ as') = AllOf is_byte bytes × AllBytes as'

pub record Sound (s : Capture) : Type 0 where
  pub bytes : AllOf is_byte s.buffer
  pub printed : AllPrintable s.printed

abbrev pub IsSound : Option Capture → Type 0
IsSound none = Unit {0}
IsSound (some s) = Sound s

parsed_packet-Sound :
    (filter_type : Bytes) (now : Timeval) (s : Capture) (p : PacketInfo) (n : ℕ)
    → Sound s
    → Fits p
    → Sound (parsed_packet filter_type now (record s { allocs = s.allocs + n }) p)
unfolding parsed_packet free
parsed_packet-Sound filter_type now s p n v f = elim (Bool-cases (check_filter filter_type p)) [
  | inr other ↦ rw other (record { bytes = v.bytes; printed = v.printed })
  | inl hit ↦
      let p' : PacketInfo = record p { timestamp = now } in
      let f' : Fits p' = record {
        source = f.source;
        target = f.target;
        size = f.size;
        inside = f.inside;
      } in
      rw hit (record {
        bytes = v.bytes;
        printed = AllPrintable-snoc s.printed p' v.printed (Fits-Printable p' f');
      })
]

after_parse-Sound :
    (filter_type : Bytes) (now : Timeval) (s : Capture) (r : Parsed)
    → Sound s
    → FitsParsed r
    → IsSound (after_parse filter_type now s r)
unfolding after_parse
after_parse-Sound filter_type now s (rejected p) v f = record {
  bytes = v.bytes;
  printed = v.printed;
}
after_parse-Sound filter_type now s (parsed p n) v f = parsed_packet-Sound filter_type now s p n v f
after_parse-Sound filter_type now s fault v f = tt

capture_round-Sound :
    (filter_type : Bytes) (s : Capture) (a : Arrival) (more : List Arrival)
    → Sound s
    → AllBytes (a ∷ more)
    → IsSound (capture_round filter_type s a) × AllBytes more
unfolding capture_round
capture_round-Sound filter_type s failed more v h = (v, h)
capture_round-Sound filter_type s (packet bytes allocated now) more v h =
    let buffer = overwrite bytes s.buffer in
    let all =
      AllOf-append is_byte bytes (drop (length bytes) s.buffer) h.0
        (drop-AllOf (length bytes) s.buffer v.bytes) in
    (
      after_parse-Sound filter_type now (record s { buffer = buffer })
          (parse_packet buffer (length bytes) allocated s.info)
          (record { bytes = all; printed = v.printed })
          (parse-Fits buffer (length bytes) allocated s.info all),
      h.1,
    )

-- However the capture goes, unless a copy runs past the end of the buffer: when the socket gives bytes and
-- the buffer holds bytes at first, then every packet that is printed has ports that fit an unsigned
-- short and a length that fits an int, its block is as long as the data at least, so that printing
-- stays inside it, and what is shown is as many printable characters as it has bytes of data,
-- at most 100; if that was so of the packets printed before.
pub capture-Sound :
    (filter_type : Bytes) (s : Capture) (arrivals : List Arrival)
    → Sound s
    → AllBytes arrivals
    → IsSound (capture_packets filter_type s arrivals)
unfolding capture_packets
capture-Sound filter_type s [] v h = v
capture-Sound filter_type s (a ∷ more) v h =
    let (w, rest) = capture_round-Sound filter_type s a more v h in
    elim (Option-cases (capture_round filter_type s a)) [
      | inl e ↦ rw (e, capture_packets) tt
      | inr (t, e) ↦ rw (e, capture_packets) (capture-Sound filter_type t more (rw e at w) rest)
    ]
