-- ===== src/Sniffer/Tests.antt =====
-- Runs of the sniffer, and its theorems at concrete packets.
use eltex_modul.Common.{
  ◌≡◌, ◌+◌, refl, true, not, ◌&&◌, none, List, [], ◌∷◌, ◌++◌, arith, replicate, length, ltb, leb,
}
use eltex_modul.Common.Int.{pos, ◌+ℤ◌, ◌-ℤ◌}
use eltex_modul.Common.Text.{utf8}
use eltex_modul.Sniffer.{Timeval, PacketInfo, parsed, word, udp_offset, parse_packet}
use eltex_modul.Sniffer.Frame.{Frame, IsFrame, frame_bytes, Mac}
use eltex_modul.Sniffer.Parse.{
  expected, parse-frame, parse-fault, is_fault, accepted, announced_end,
}
use eltex_modul.Sniffer.Render.{console_text, time_text}
use eltex_modul.Sniffer.Time.{get_time_diff}
use eltex_modul.Sniffer.Capture.{capture_packets, Capture, Arrival, failed, packet}
use eltex_modul.Common.Text.{Bytes}
use eltex_modul.Common.Handles.{AllClosed}
use eltex_modul.Sniffer.Setup.{Answers, Junk, main}
use eltex_modul.Sniffer.Closing.{same, trace_of, main-AllClosed}
use eltex_modul.Sniffer.Choices.{typed, AsTyped, main-AsTyped}
use eltex_modul.Sniffer.Printing.{IsSound, capture-Sound}
use eltex_modul.Common.{Bool}
use eltex_modul.Common.Text.{Bytes, AllOf}
use eltex_modul.Sniffer.Fields.{is_byte}

abbrev mac_a : Mac
mac_a = record { a = 0xe4; b = 0x60; c = 0x17; d = 0x4b; e = 0x32; f = 0xc8 }

abbrev mac_b : Mac
mac_b = record { a = 255; b = 255; c = 255; d = 255; e = 255; f = 255 }

-- A packet of the chat of 06/main.c with the text "fd", as in 08/report.md, with one option word.
abbrev chat_frame : Frame
chat_frame = record {
  dest_mac = mac_b;
  src_mac = mac_a;
  tos = 0;
  total = 34;
  ident = 7;
  fragment = 0;
  ttl = 64;
  checksum = 513;
  src_ip = record { w = 10; x = 27; y = 29; z = 160 };
  dest_ip = record { w = 255; x = 255; y = 255; z = 255 };
  words = 1;
  options = 1 ∷ 1 ∷ 1 ∷ 0 ∷ [];
  src_port = 8888;
  dest_port = 8888;
  udp_checksum = 9;
  content = utf8 "fd";
}

abbrev origin : Timeval
origin = record { sec = pos 0; usec = pos 0 }

abbrev later : Timeval
later = record { sec = pos 3; usec = pos 991_383 }

abbrev unset : PacketInfo
unset = record {
  timestamp = origin;
  src_mac = [];
  dest_mac = [];
  src_ip = [];
  dest_ip = [];
  src_port = 0;
  dest_port = 0;
  payload = none;
  data_len = 0;
}

abbrev chat_info : PacketInfo
chat_info = record (expected unset chat_frame) { timestamp = later }

-- The milliseconds are followed by the microseconds padded to six digits: 3991.383 ms is printed as
-- "3991.000383 ms".
time_printed : time_text (get_time_diff origin later) ≡ utf8 "[3991.000383 ms] "
unfolding time_text get_time_diff ◌+ℤ◌ ◌-ℤ◌
time_printed = refl

chat_printed :
    console_text origin chat_info
    ≡ utf8
        "\n[3991.000383 ms] MAC: E4:60:17:4B:32:C8 -> FF:FF:FF:FF:FF:FF\n      IP: 10.27.29.160 -> 255.255.255.255\n      UDP: 8888 -> 8888\n      Data: fd\n      ---\n"
unfolding console_text ◌+ℤ◌ ◌-ℤ◌
chat_printed = refl

chat_frame-IsFrame : IsFrame chat_frame
chat_frame-IsFrame = record { few = omega arith; whole = refl }

parse-frame_example :
    parse_packet (frame_bytes chat_frame ++ replicate 20 7) 48 true unset
    ≡ parsed (expected unset chat_frame) 1
parse-frame_example =
    parse-frame chat_frame chat_frame-IsFrame (replicate 20 7) 48 unset (omega arith) (omega arith)

parse-fault_example : is_fault (parse_packet (frame_bytes chat_frame) 48 true unset) ≡ (
    accepted (frame_bytes chat_frame) 48
    && (ltb 8 (word (frame_bytes chat_frame) (udp_offset (frame_bytes chat_frame) + 4))
        && not (leb (announced_end (frame_bytes chat_frame)) (length (frame_bytes chat_frame)))))
parse-fault_example = parse-fault (frame_bytes chat_frame) 48 unset

abbrev idle : Capture
idle = record { buffer = []; info = unset; packet_count = 0; allocs = 0; frees = 0; printed = [] }

abbrev traffic : List Arrival
traffic = packet (frame_bytes chat_frame) true later ∷ failed ∷ packet (0 ∷ []) true later ∷ []

abbrev junk : Junk
junk = record { iface = []; choice = pos 0; answer = []; filename = [] }

abbrev obliging : Answers
obliging = record {
  is_root = true;
  has_socket = true;
  has_index = λ name. true;
  binds = true;
  opens = λ name. true;
}

-- The second of the four lines is 1, the chat.
abbrev lines : Bytes
lines = typed (utf8 "eth0") 1 (utf8 "out.txt")

closed_example : AllClosed same (trace_of (main obliging junk lines idle traffic))
closed_example = main-AllClosed obliging junk lines idle traffic

typed_example :
    AsTyped obliging (utf8 "eth0") 1 (utf8 "out.txt") (main obliging junk lines idle traffic)
typed_example =
    main-AsTyped obliging junk (utf8 "eth0") (utf8 "out.txt") 1 idle traffic (omega arith)
      (record { some_bytes = omega arith; one_line = ground arith; text = ground arith })
      (omega arith)
      (record { some_bytes = omega arith; one_line = ground arith; text = ground arith })
      (omega arith) (record { root = refl; socket = refl; index = refl; bound = refl })
      (record { balanced = refl; counted = refl; passed = tt })

abbrev all_bytes : Bytes → Bool
all_bytes [] = true
all_bytes (b ∷ bs) = is_byte b && all_bytes bs

all_bytes-AllOf : (s : Bytes) → all_bytes s ≡ true → AllOf is_byte s
all_bytes-AllOf [] h = tt
all_bytes-AllOf (b ∷ bs) h = (ground (arith, h), all_bytes-AllOf bs (ground (arith, h)))

Sound_example : IsSound (capture_packets (utf8 "chat") idle traffic)
unfolding frame_bytes
Sound_example =
    capture-Sound (utf8 "chat") idle traffic (record { bytes = tt; printed = tt })
      (all_bytes-AllOf (frame_bytes chat_frame) refl, ((refl, tt), tt))
