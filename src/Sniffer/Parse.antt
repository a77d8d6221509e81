-- ===== src/Sniffer/Parse.antt =====
-- `parse_packet` of 08/udp_sniffer.c against the layout of a frame, and where it may read.
use eltex_modul.Common.{
  ℕ, zero, suc, ◌+◌, ◌-◌, ◌≤◌, ◌<◌, ◌≡◌, refl, ap, ◌∙◌, Bool, true, false, not, ◌&&◌, some, [], ◌∷◌,
  ◌++◌, ltb, leb, ◌==◌, arith, length, get_or, take, drop, length-append, append_assoc, Bool-cases,
  inl, inr,
}
use eltex_modul.Common.Text.{Bytes}
use eltex_modul.Sniffer.{
  PacketInfo, Parsed, rejected, parsed, fault, byte, word, copy_out, udp_offset, parse_udp,
  parse_packet, with_payload, with_ips, with_macs,
}
use eltex_modul.Sniffer.Frame.{Frame, IsFrame, front, datagram, frame_bytes, mac_bytes, ip_bytes}

-- Reading and cutting behind a part of known length.
pub get_or-append :
    (xs ys : Bytes) (n i : ℕ) → n ≡ length xs + i → get_or (xs ++ ys) n 0 ≡ get_or ys i 0
get_or-append [] ys n i e = ap (λ k. get_or ys k 0) (e ∙ omega arith)
get_or-append (x ∷ xs) ys zero i e = absurd (omega arith)
get_or-append (x ∷ xs) ys (suc n) i e = get_or-append xs ys n i (omega arith)

pub drop-append : (xs ys : Bytes) (n i : ℕ) → n ≡ length xs + i → drop n (xs ++ ys) ≡ drop i ys
drop-append [] ys n i e = ap (λ k. drop k ys) (e ∙ omega arith)
drop-append (x ∷ xs) ys zero i e = absurd (omega arith)
drop-append (x ∷ xs) ys (suc n) i e = drop-append xs ys n i (omega arith)

pub take-append : (xs ys : Bytes) (n : ℕ) → n ≡ length xs → take n (xs ++ ys) ≡ xs
take-append [] ys zero e = refl
take-append [] ys (suc n) e = absurd (omega arith)
take-append (x ∷ xs) ys zero e = absurd (omega arith)
take-append (x ∷ xs) ys (suc n) e = ap (◌∷◌ x) (take-append xs ys n (omega arith))

-- The record that a frame stands for.
abbrev pub expected : PacketInfo → Frame → PacketInfo
expected p f = record p {
  src_mac = mac_bytes f.src_mac;
  dest_mac = mac_bytes f.dest_mac;
  src_ip = ip_bytes f.src_ip;
  dest_ip = ip_bytes f.dest_ip;
  src_port = f.src_port;
  dest_port = f.dest_port;
  payload = some (f.content ++ 0 ∷ []);
  data_len = length f.content;
}

-- The record before the UDP header is read.
abbrev addressed : PacketInfo → Frame → PacketInfo
addressed p f = record p {
  src_mac = mac_bytes f.src_mac;
  dest_mac = mac_bytes f.dest_mac;
  src_ip = ip_bytes f.src_ip;
  dest_ip = ip_bytes f.dest_ip;
}

module _ (f : Frame) (h : IsFrame f) (rest : Bytes) where
  abbrev whole_buffer : Bytes
  whole_buffer = front f ++ (f.options ++ (datagram f ++ rest))

  offset : udp_offset whole_buffer ≡ 34 + length f.options
  unfolding udp_offset
  offset = omega (arith, h.few, h.whole)

  at : (n i : ℕ) → n ≡ 34 + length f.options + i → byte whole_buffer n ≡ byte (datagram f ++ rest) i
  at n i e =
      get_or-append (front f) (f.options ++ (datagram f ++ rest)) n (length f.options + i)
        (omega arith)
      ∙ get_or-append f.options (datagram f ++ rest) _ i refl

  cut :
      (n i : ℕ) → n ≡ 34 + length f.options + i → drop n whole_buffer ≡ drop i (datagram f ++ rest)
  cut n i e =
      drop-append (front f) (f.options ++ (datagram f ++ rest)) n (length f.options + i)
        (omega arith)
      ∙ drop-append f.options (datagram f ++ rest) _ i refl

  abbrev udp : ℕ
  udp = 34 + length f.options

  source : word whole_buffer udp ≡ f.src_port
  source = omega (arith, at udp 0 (omega arith), at (udp + 1) 1 (omega arith))

  target : word whole_buffer (udp + 2) ≡ f.dest_port
  target = omega (arith, at (udp + 2) 2 (omega arith), at (udp + 2 + 1) 3 (omega arith))

  size : word whole_buffer (udp + 4) ≡ 8 + length f.content
  size = omega (arith, at (udp + 4) 4 (omega arith), at (udp + 4 + 1) 5 (omega arith))

  length-whole : length whole_buffer ≡ 42 + length f.options + length f.content + length rest
  length-whole =
      omega (arith, length-append f.options (datagram f ++ rest), length-append f.content rest)

  content : copy_out whole_buffer (udp + 8) (length f.content) ≡ some f.content
  unfolding copy_out
  content =
      rw (cut (udp + 8) 8 (omega arith))
        (ground (arith, length-whole, take-append f.content rest (length f.content) refl))

  -- The part from the UDP header on.
  datagram-parsed :
      (q : PacketInfo)
      → 0 < length f.content
      → parse_udp whole_buffer true q
        ≡ parsed
            (record q {
              src_port = f.src_port;
              dest_port = f.dest_port;
              payload = some (f.content ++ 0 ∷ []);
              data_len = length f.content;
            })
            1
  unfolding parse_udp
  datagram-parsed q some_data =
      let n_eq : 8 + length f.content - 8 ≡ length f.content = omega arith in
      let more : ltb 8 (8 + length f.content) ≡ true = ground arith in
      rw (offset, size, more, n_eq, content) (rw (source, target) refl)

  whole-frame : frame_bytes f ++ rest ≡ whole_buffer
  unfolding frame_bytes
  whole-frame =
      append_assoc (front f) (f.options ++ datagram f) rest
      ∙ ap (λ t. front f ++ t) (append_assoc f.options (datagram f) rest)

  -- A frame of UDP over IP with any options and at least one byte of data, whatever stands behind it
  -- in the buffer, is parsed into the addresses, the ports and the data that it was built from. The
  -- size that `recvfrom` gives is at least that of the headers, and `malloc` gives the one block asked.
  pub parse-frame :
      (data_size : ℕ) (p : PacketInfo)
      → 42 ≤ data_size
      → 0 < length f.content
      → parse_packet (frame_bytes f ++ rest) data_size true p ≡ parsed (expected p f) 1
  unfolding parse_packet
  parse-frame data_size p big some_data =
      let fits : ltb data_size 42 ≡ false = ground arith in
      rw (whole-frame, fits) (datagram-parsed (addressed p f) some_data)

abbrev pub accepted : Bytes → ℕ → Bool
accepted buffer data_size = leb 42 data_size && (word buffer 12 == 0x0800) && (byte buffer 23 == 17)

-- The end of the data that the UDP header announces.
abbrev pub announced_end : Bytes → ℕ
announced_end buffer = udp_offset buffer + word buffer (udp_offset buffer + 4)

-- How many bytes `recvfrom` gave decides only whether the headers are there: beyond that the result
-- does not depend on it, so data that the UDP header announces and that did not arrive is taken from
-- what older packets left in the buffer.
pub parse-size :
    (buffer : Bytes) (m n : ℕ) (allocated : Bool) (p : PacketInfo)
    → 42 ≤ m
    → 42 ≤ n
    → parse_packet buffer m allocated p ≡ parse_packet buffer n allocated p
unfolding parse_packet
parse-size buffer m n allocated p hm hn =
    let a : ltb m 42 ≡ false = ground arith in
    let b : ltb n 42 ≡ false = ground arith in rw (a, b) refl

abbrev pub is_fault : Parsed → Bool
is_fault (rejected p) = false
is_fault (parsed p n) = false
is_fault fault = true

parse_udp-fault :
    (buffer : Bytes) (p : PacketInfo)
    → is_fault (parse_udp buffer true p) ≡ (
        ltb 8 (word buffer (udp_offset buffer + 4))
        && not (leb (announced_end buffer) (length buffer)))
unfolding parse_udp copy_out with_payload
parse_udp-fault buffer p = ground arith

-- With memory at hand, parsing copies from beyond the end of the buffer exactly when the headers are
-- there, the packet is UDP over IP, and the end of the data that it announces, which is more than
-- the UDP header, lies behind the end of the buffer.
pub parse-fault :
    (buffer : Bytes) (data_size : ℕ) (p : PacketInfo)
    → is_fault (parse_packet buffer data_size true p) ≡ (
        accepted buffer data_size
        && (ltb 8 (word buffer (udp_offset buffer + 4))
            && not (leb (announced_end buffer) (length buffer))))
unfolding parse_packet
parse-fault buffer data_size p = elim (Bool-cases (ltb data_size 42)) [
  | inl short ↦ rw short (ground arith)
  | inr big ↦ elim (Bool-cases (word buffer 12 == 0x0800)) [
    | inr other ↦ rw (big, other) (ground arith)
    | inl ip ↦ elim (Bool-cases (byte buffer 23 == 17)) [
      | inr other ↦ rw (big, ip, other) (ground arith)
      | inl udp ↦
          rw (big, ip, udp)
            (parse_udp-fault buffer (with_ips buffer (with_macs buffer p)) ∙ ground arith)
    ]
  ]
]
