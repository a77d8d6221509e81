-- ===== src/Sniffer/Closing.antt =====
-- Which descriptors main of 08/udp_sniffer.c opens and closes.
use eltex_modul.Common.{
  ◌≡◌, refl, inl, inr, Bool, true, false, Option, none, some, List, [], ◌∷◌, take, arith,
  Bool-cases,
}
use eltex_modul.Common.Text.{Bytes}
use eltex_modul.Common.Handles.{Event, opened, closed, opens_of, closes_of, AllClosed}
use eltex_modul.Sniffer.Capture.{Capture, Arrival, capture_packets}
use eltex_modul.Sniffer.Setup.{
  select_interface, Answers, Handle, raw_sock, output_file, create_raw_socket, Junk, Choices,
  Outcome, exited, crashed, returned, choices, ended, sniff_on, main,
}

abbrev pub same : Handle → Handle → Bool
same raw_sock raw_sock = true
same raw_sock output_file = false
same output_file raw_sock = false
same output_file output_file = true

abbrev pub trace_of : Outcome → List (Event Handle)
trace_of (exited events) = events
trace_of crashed = []
trace_of (returned events c s) = events

ended-AllClosed :
    (c : Choices) (file : Option Bytes) (r : Option Capture)
    → c.file ≡ file
    → AllClosed same (trace_of (ended (opened raw_sock ∷ []) c r))
unfolding opens_of closes_of
ended-AllClosed c file none e h = (refl, omega arith)
ended-AllClosed c none (some s) e raw_sock = rw e (refl, omega arith)
ended-AllClosed c none (some s) e output_file = rw e (refl, omega arith)
ended-AllClosed c (some name) (some s) e raw_sock = rw e (refl, omega arith)
ended-AllClosed c (some name) (some s) e output_file = rw e (refl, omega arith)

failed-AllClosed : AllClosed same (opened raw_sock ∷ closed raw_sock ∷ [])
unfolding opens_of closes_of
failed-AllClosed raw_sock = (refl, omega arith)
failed-AllClosed output_file = (refl, omega arith)

nothing-AllClosed : AllClosed same []
unfolding opens_of closes_of
nothing-AllClosed h = (refl, omega arith)

-- Whatever the user types, the kernel answers and arrives: when main ends, by exit or by return, each of
-- the raw socket and the output file has been opened at most once and closed as often as opened.
pub main-AllClosed :
    (a : Answers) (junk : Junk) (input : Bytes) (s : Capture) (arrivals : List Arrival)
    → AllClosed same (trace_of (main a junk input s arrivals))
unfolding main sniff_on create_raw_socket
main-AllClosed a junk input s arrivals =
    let i = select_interface junk.iface input in
    let c = choices a junk i.0 i.1 in
    let r = capture_packets c.filter_type s arrivals in
    elim (Bool-cases a.is_root) [
      | inr e ↦ rw e nothing-AllClosed
      | inl root ↦ elim (Bool-cases a.has_socket) [
        | inr e ↦ rw (root, e) nothing-AllClosed
        | inl socket ↦ elim (Bool-cases (a.has_index (take 15 i.0))) [
          | inr e ↦ rw (root, socket, e) failed-AllClosed
          | inl index ↦ elim (Bool-cases a.binds) [
            | inr e ↦ rw (root, socket, index, e) failed-AllClosed
            | inl bound ↦ rw (root, socket, index, bound) (ended-AllClosed c c.file r refl)
          ]
        ]
      ]
    ]
