-- ===== src/Sniffer/Balance.antt =====
-- The capture loop of 08/udp_sniffer.c frees what it allocates and prints what passes.
use eltex_modul.Common.{
  ℕ, ◌+◌, ◌≡◌, refl, Bool, true, Option, none, some, List, [], ◌∷◌, ◌++◌, arith, length,
  length-append, ◌∙◌, Bool-cases, Option-cases, inl, inr, ltb, ◌==◌,
}
use eltex_modul.Common.Text.{Bytes}
use eltex_modul.Sniffer.{
  Timeval, PacketInfo, Parsed, rejected, parsed, fault, parse_packet, check_filter, parse_udp,
  with_payload, word, byte, udp_offset, with_ips, with_macs, with_ports,
}
use eltex_modul.Sniffer.Capture.{
  Arrival, failed, packet, Capture, blocks, parsed_packet, after_parse, overwrite, capture_round,
  capture_packets,
}

abbrev pub AllPass : Bytes → List PacketInfo → Type 0
AllPass filter_type [] = Unit {0}
AllPass filter_type (p ∷ ps) = (check_filter filter_type p ≡ true) × AllPass filter_type ps

pub record Inv (filter_type : Bytes) (s : Capture) : Type 0 where
  pub balanced : s.allocs ≡ s.frees
  pub counted : s.packet_count ≡ length s.printed
  pub passed : AllPass filter_type s.printed

-- The parser asks for as many blocks as its record holds.
abbrev Holds : Parsed → Type 0
Holds (rejected p) = Unit {0}
Holds (parsed p n) = n ≡ blocks p.payload
Holds fault = Unit {0}

copied-Holds : (p : PacketInfo) (r : Option Bytes) (n : ℕ) → Holds (with_payload p r n)
unfolding with_payload
copied-Holds p none n = tt
copied-Holds p (some block) n = refl

udp-Holds :
    (buffer : Bytes) (allocated : Bool) (p : PacketInfo) → Holds (parse_udp buffer allocated p)
unfolding parse_udp
udp-Holds buffer allocated p = elim (Bool-cases (ltb 8 (word buffer (udp_offset buffer + 4)))) [
  | inr empty ↦ rw empty refl
  | inl full ↦ elim (Bool-cases allocated) [
    | inr none' ↦ rw (full, none') refl
    | inl block ↦ rw (full, block) (copied-Holds (with_ports buffer p) _ _)
  ]
]

packet-Holds :
    (buffer : Bytes) (n : ℕ) (allocated : Bool) (p : PacketInfo)
    → Holds (parse_packet buffer n allocated p)
unfolding parse_packet
packet-Holds buffer n allocated p = elim (Bool-cases (ltb n 42)) [
  | inl short ↦ rw short tt
  | inr big ↦ elim (Bool-cases (word buffer 12 == 0x0800)) [
    | inr other ↦ rw (big, other) tt
    | inl ip ↦ elim (Bool-cases (byte buffer 23 == 17)) [
      | inr other ↦ rw (big, ip, other) tt
      | inl udp ↦
          rw (big, ip, udp) (udp-Holds buffer allocated (with_ips buffer (with_macs buffer p)))
    ]
  ]
]

-- A round keeps the invariant, unless it copies past the end of the buffer.
abbrev pub Keeps : Bytes → Option Capture → Type 0
Keeps filter_type none = Unit {0}
Keeps filter_type (some s) = Inv filter_type s

AllPass-append :
    (filter_type : Bytes) (ps : List PacketInfo) (p : PacketInfo)
    → AllPass filter_type ps
    → check_filter filter_type p ≡ true
    → AllPass filter_type (ps ++ p ∷ [])
AllPass-append filter_type [] p h k = (k, tt)
AllPass-append filter_type (q ∷ ps) p h k = (h.0, AllPass-append filter_type ps p h.1 k)

-- The filter does not look at the time.
check_filter-now :
    (filter_type : Bytes) (p : PacketInfo) (now : Timeval)
    → check_filter filter_type (record p { timestamp = now }) ≡ check_filter filter_type p
unfolding check_filter
check_filter-now filter_type p now = refl

parsed_packet-Inv :
    (filter_type : Bytes) (now : Timeval) (s : Capture) (p : PacketInfo) (n : ℕ)
    → Inv filter_type s
    → n ≡ blocks p.payload
    → Inv filter_type (parsed_packet filter_type now (record s { allocs = s.allocs + n }) p)
unfolding parsed_packet
parsed_packet-Inv filter_type now s p n v e = elim (Bool-cases (check_filter filter_type p)) [
  | inr other ↦
      rw other
        (record { balanced = omega (arith, v.balanced); counted = v.counted; passed = v.passed })
  | inl hit ↦
      let p' : PacketInfo = record p { timestamp = now } in
      rw hit (record {
        balanced = omega (arith, v.balanced);
        counted = omega (arith, v.counted, length-append s.printed (p' ∷ []));
        passed =
            AllPass-append filter_type s.printed p' v.passed
              (check_filter-now filter_type p now ∙ hit);
      })
]

after_parse-Keeps :
    (filter_type : Bytes) (now : Timeval) (s : Capture) (r : Parsed)
    → Inv filter_type s
    → Holds r
    → Keeps filter_type (after_parse filter_type now s r)
unfolding after_parse
after_parse-Keeps filter_type now s (rejected p) v h = record {
  balanced = v.balanced;
  counted = v.counted;
  passed = v.passed;
}
after_parse-Keeps filter_type now s (parsed p n) v h = parsed_packet-Inv filter_type now s p n v h
after_parse-Keeps filter_type now s fault v h = tt

capture_round-Keeps :
    (filter_type : Bytes) (s : Capture) (a : Arrival)
    → Inv filter_type s
    → Keeps filter_type (capture_round filter_type s a)
unfolding capture_round
capture_round-Keeps filter_type s failed v = v
capture_round-Keeps filter_type s (packet bytes allocated now) v =
    after_parse-Keeps filter_type now (record s { buffer = overwrite bytes s.buffer }) _
      (record { balanced = v.balanced; counted = v.counted; passed = v.passed })
      (packet-Holds (overwrite bytes s.buffer) (length bytes) allocated s.info)

-- However the capture goes, unless a copy runs past the end of the buffer: between two packets every
-- block that `malloc` gave has been freed, the count is the number of packets that were printed, and
-- each of those passes the filter, if that was so at the start.
pub capture-Keeps :
    (filter_type : Bytes) (s : Capture) (arrivals : List Arrival)
    → Inv filter_type s
    → Keeps filter_type (capture_packets filter_type s arrivals)
unfolding capture_packets
capture-Keeps filter_type s [] v = v
capture-Keeps filter_type s (a ∷ rest) v = elim (Option-cases (capture_round filter_type s a)) [
  | inl e ↦ rw (e, capture_packets) tt
  | inr (s', e) ↦
      rw (e, capture_packets)
        (capture-Keeps filter_type s' rest (rw e at (capture_round-Keeps filter_type s a v)))
]
