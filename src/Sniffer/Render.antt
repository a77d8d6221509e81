-- ===== src/Sniffer/Render.antt =====
-- `print_packet_info` of 08/udp_sniffer.c: the text on the console and the text in the output file.
use mathlib.Core.Option.{get_or as or_else}
use eltex_modul.Common.{
  ℕ, suc, ◌-◌, ◌/◌, ◌%◌, ◌≤◌, ◌<◌, ◌≡◌, sym, ap, ◌∙◌, Bool, true, false, ◌&&◌, [], ◌∷◌, ◌++◌, map,
  if◌then◌else◌, ltb, leb, arith, length, get_or, take, replicate, length-take, length-map,
  append_assoc, min,
}
use eltex_modul.Common.Int.{ℤ, pos, negsuc, sub_ℕ}
use eltex_modul.Common.Decimal.{print_ℕ, print_ℤ}
use eltex_modul.Common.Text.{Bytes, utf8, AllOf}
use eltex_modul.Sniffer.{Timeval, PacketInfo}
use eltex_modul.Sniffer.Mac.{format_mac}
use eltex_modul.Sniffer.Time.{get_time_diff}

-- A byte as it is shown.
unfoldable pub visible : ℕ → ℕ
visible c = if leb 32 c && leb c 126 then c else b'.'

abbrev pub show_max : ℕ
show_max = 100

-- The bytes that the loop shows; `show_len` is the smaller of `data_len` and 100.
unfoldable pub shown : PacketInfo → Bytes
unfolding visible
shown p =
    map visible
      (take (if ltb p.data_len show_max then p.data_len else show_max) (or_else p.payload []))

unfoldable pub remainder : PacketInfo → Bytes
remainder p =
    if ltb show_max p.data_len
    then utf8 "... (ещё " ++ (print_ℕ (p.data_len - show_max) ++ utf8 " байт)")
    else []

-- `%06lld`.
unfoldable pub pad : ℕ → Bytes → Bytes
pad width digits = replicate (width - length digits) b'0' ++ digits

unfoldable pub pad_ℤ : ℤ → Bytes
unfolding pad
pad_ℤ (pos n) = pad 6 (print_ℕ n)
pad_ℤ (negsuc n) = b'-' ∷ pad 5 (print_ℕ (suc n))

-- diff / 1000 and diff % 1000 of C, which round towards zero.
unfoldable pub whole_part : ℤ → ℤ
whole_part (pos n) = pos (n / 1000)
whole_part (negsuc n) = sub_ℕ 0 (suc n / 1000)

unfoldable pub rest_part : ℤ → ℤ
rest_part (pos n) = pos (n % 1000)
rest_part (negsuc n) = sub_ℕ 0 (suc n % 1000)

unfoldable pub time_text : ℤ → Bytes
unfolding pad_ℤ whole_part rest_part print_ℤ
time_text diff =
    utf8 "["
    ++ (print_ℤ (whole_part diff) ++ (utf8 "." ++ (pad_ℤ (rest_part diff) ++ utf8 " ms] ")))

-- inet_ntop of an IPv4 address.
unfoldable pub inet_ntop : Bytes → Bytes
unfolding print_ℕ
inet_ntop ip =
    let part = λ (i : ℕ). print_ℕ (get_or ip i 0) in
    part 0 ++ (b'.' ∷ (part 1 ++ (b'.' ∷ (part 2 ++ (b'.' ∷ part 3)))))

-- The three lines on the addresses, without the last end of line.
unfoldable pub heading : Timeval → PacketInfo → Bytes
unfolding time_text inet_ntop format_mac get_time_diff
heading start_time p =
    time_text (get_time_diff start_time p.timestamp)
    ++ (utf8 "MAC: "
        ++ (format_mac p.src_mac
            ++ (utf8 " -> "
                ++ (format_mac p.dest_mac
                    ++ (utf8 "\n      IP: "
                        ++ (inet_ntop p.src_ip
                            ++ (utf8 " -> "
                                ++ (inet_ntop p.dest_ip
                                    ++ (utf8 "\n      UDP: "
                                        ++ (print_ℕ p.src_port
                                            ++ (utf8 " -> " ++ print_ℕ p.dest_port)))))))))))

unfoldable pub content_text : PacketInfo → Bytes
unfolding shown remainder
content_text p = utf8 "      Data: " ++ (shown p ++ remainder p)

unfoldable pub console_text : Timeval → PacketInfo → Bytes
unfolding heading content_text
console_text start_time p =
    b'\n'
    ∷ (heading start_time p
        ++ ((if ltb 0 p.data_len then b'\n' ∷ content_text p else []) ++ utf8 "\n      ---\n"))

unfoldable pub file_text : Timeval → PacketInfo → Bytes
unfolding heading content_text
file_text start_time p =
    heading start_time p
    ++ (b'\n' ∷ ((if ltb 0 p.data_len then content_text p else []) ++ utf8 "\n      ---\n\n"))

-- The entry of a packet with data in the file is its entry on the console with the empty line moved
-- from before it to behind it; the entry of a packet without data has one empty line more.
pub file-console :
    (start_time : Timeval) (p : PacketInfo)
    → (0 < p.data_len → b'\n' ∷ file_text start_time p ≡ console_text start_time p ++ b'\n' ∷ [])
      × (p.data_len ≡ 0
          → b'\n' ∷ file_text start_time p
            ≡ (b'\n' ∷ (heading start_time p ++ b'\n' ∷ [])) ++ utf8 "\n      ---\n\n")
unfolding file_text console_text
file-console start_time p =
    let h = heading start_time p in
    let c = content_text p in
    (
      λ some_data.
          let t : ltb 0 p.data_len ≡ true = ground arith in
          rw t (
            ap (◌∷◌ b'\n') (
              sym (
                append_assoc h (b'\n' ∷ (c ++ utf8 "\n      ---\n")) (b'\n' ∷ [])
                ∙ ap (λ r. h ++ b'\n' ∷ r) (append_assoc c (utf8 "\n      ---\n") (b'\n' ∷ []))))),
      λ no_data.
          let t : ltb 0 p.data_len ≡ false = ground arith in
          rw t (ap (◌∷◌ b'\n') (sym (append_assoc h (b'\n' ∷ []) (utf8 "\n      ---\n\n")))),
    )

abbrev pub is_visible : ℕ → Bool
is_visible c = leb 32 c && leb c 126

visible-AllOf : (s : Bytes) → AllOf is_visible (map visible s)
unfolding visible
visible-AllOf [] = tt
visible-AllOf (c ∷ cs) = (ground arith, visible-AllOf cs)

-- Only printable characters are shown, at most 100 of them: as many as the packet has bytes of data,
-- if it has no more than that. The block has room for the data.
pub shown_lem :
    (p : PacketInfo)
    → p.data_len ≤ length (or_else p.payload [])
    → AllOf is_visible (shown p) × (length (shown p) ≡ min p.data_len show_max)
unfolding shown
shown_lem p h =
    let k = if ltb p.data_len show_max then p.data_len else show_max in
    (
      visible-AllOf (take k (or_else p.payload [])),
      ground (
        arith,
        length-map (take k (or_else p.payload [])) visible,
        length-take k (or_else p.payload []),
      ),
    )
