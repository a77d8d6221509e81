-- ===== src/Sniffer/Fields.antt =====
-- The fields that parse_packet of 08/udp_sniffer.c gives fit their C types.
use mathlib.Core.Option.{get_or as or_else}
use eltex_modul.Common.{
  ℕ, zero, suc, ◌+◌, ◌-◌, ◌≤◌, ◌<◌, inl, inr, Bool, [], ◌∷◌, ltb, leb, ◌==◌, length, drop, arith,
  Bool-cases, length-append, length-drop, length-take,
}
use eltex_modul.Common.Text.{Bytes, AllOf}
use eltex_modul.Sniffer.{
  PacketInfo, Parsed, rejected, parsed, fault, byte, word, slice, copy_out, udp_offset,
  with_payload, with_ports, with_macs, with_ips, parse_udp, parse_packet,
}

abbrev pub is_byte : ℕ → Bool
is_byte c = ltb c 256

byte-fits : (buffer : Bytes) (i : ℕ) → AllOf is_byte buffer → byte buffer i < 256
byte-fits [] i h = omega arith
byte-fits (b ∷ bs) zero h = ground (arith, h.0)
byte-fits (b ∷ bs) (suc i) h = byte-fits bs i h.1

word-fits : (buffer : Bytes) (i : ℕ) → AllOf is_byte buffer → word buffer i < 65536
word-fits buffer i h = omega (arith, byte-fits buffer i h, byte-fits buffer (i + 1) h)

pub drop-AllOf : (n : ℕ) (s : Bytes) → AllOf is_byte s → AllOf is_byte (drop n s)
drop-AllOf zero s h = h
drop-AllOf (suc n) [] h = tt
drop-AllOf (suc n) (b ∷ bs) h = drop-AllOf n bs h.1

-- Ports of 16 bits, a length of 16 bits, and a block that is longer than the data.
pub record Fits (p : PacketInfo) : Type 0 where
  pub source : p.src_port < 65536
  pub target : p.dest_port < 65536
  pub size : p.data_len < 65536
  pub inside : p.data_len ≤ length (or_else p.payload [])

abbrev pub FitsParsed : Parsed → Type 0
FitsParsed (rejected p) = Unit {0}
FitsParsed (parsed p n) = Fits p
FitsParsed fault = Unit {0}

with_payload-Fits :
    (buffer : Bytes) (p : PacketInfo) (i n : ℕ)
    → p.src_port < 65536
    → p.dest_port < 65536
    → n < 65536
    → FitsParsed (with_payload p (copy_out buffer i n) n)
unfolding with_payload copy_out
with_payload-Fits buffer p i n source target size =
    elim (Bool-cases (leb (i + n) (length buffer))) [
      | inr outside ↦ rw outside tt
      | inl room ↦
          let there : i + n ≤ length buffer = ground (arith, room) in
          rw room (record {
            source = source;
            target = target;
            size = size;
            inside = omega (
              arith,
              there,
              length-append (slice buffer i n) (0 ∷ []),
              length-take n (drop i buffer),
              length-drop i buffer,
            );
          })
    ]

parse_udp-Fits :
    (buffer : Bytes) (allocated : Bool) (p : PacketInfo)
    → AllOf is_byte buffer
    → FitsParsed (parse_udp buffer allocated p)
unfolding parse_udp
parse_udp-Fits buffer allocated p h =
    let udp = udp_offset buffer in
    let source = word-fits buffer udp h in
    let target = word-fits buffer (udp + 2) h in
    let size = word-fits buffer (udp + 4) h in
    elim (Bool-cases (ltb 8 (word buffer (udp + 4)))) [
      | inr empty ↦
          rw empty
            (record { source = source; target = target; size = omega arith; inside = omega arith })
      | inl full ↦ elim (Bool-cases allocated) [
        | inr out ↦
            rw (full, out)
              (record {
                source = source;
                target = target;
                size = omega arith;
                inside = omega arith;
              })
        | inl block ↦
            rw (full, block)
              (with_payload-Fits buffer (with_ports buffer p) (udp + 8) (word buffer (udp + 4) - 8)
                source target (omega (arith, size)))
      ]
    ]

pub parse-Fits :
    (buffer : Bytes) (data_size : ℕ) (allocated : Bool) (p : PacketInfo)
    → AllOf is_byte buffer
    → FitsParsed (parse_packet buffer data_size allocated p)
unfolding parse_packet
parse-Fits buffer data_size allocated p h = elim (Bool-cases (ltb data_size 42)) [
  | inl short ↦ rw short tt
  | inr big ↦ elim (Bool-cases (word buffer 12 == 0x0800)) [
    | inr other ↦ rw (big, other) tt
    | inl ip ↦ elim (Bool-cases (byte buffer 23 == 17)) [
      | inr other ↦ rw (big, ip, other) tt
      | inl udp ↦
          rw (big, ip, udp)
            (parse_udp-Fits buffer allocated (with_ips buffer (with_macs buffer p)) h)
    ]
  ]
]
