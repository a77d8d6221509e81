-- ===== src/Sniffer/Choices.antt =====
-- main of 08/udp_sniffer.c, from the lines that the user types to the packets that are shown.
use eltex_modul.Common.{
  ℕ, ◌+◌, ◌-◌, ◌<◌, ◌≡◌, refl, sym, ap, ◌∙◌, inl, inr, true, Option, none, some, List, [], ◌∷◌,
  ◌++◌, length, take,
}
use eltex_modul.Common.Int.{ℤ, pos}
use eltex_modul.Common.Text.{Bytes, utf8}
use eltex_modul.Common.Handles.{opened}
use eltex_modul.Sniffer.{PacketInfo, select_filter}
use eltex_modul.Sniffer.Filter.{menu_port, wanted, check-select}
use eltex_modul.Sniffer.Capture.{Capture, Arrival, capture_packets}
use eltex_modul.Sniffer.Balance.{AllPass, Inv, Keeps, capture-Keeps}
use eltex_modul.Sniffer.Setup.{
  ifnamsiz, max_filename, Answers, raw_sock, create_raw_socket, open_output, setup_output_file,
  Junk, Choices, Outcome, exited, crashed, returned, choices, ended, sniff_on, main,
}
use eltex_modul.Sniffer.Typing.{
  IsTyped, select_interface-name, choose_filter-digit, choose_filter-newline, setup-yes,
}

-- The answers of a kernel that lets everything through, but perhaps not the file.
pub record Permits (a : Answers) (iface : Bytes) : Type 0 where
  pub root : a.is_root ≡ true
  pub socket : a.has_socket ≡ true
  pub index : a.has_index (take (ifnamsiz - 1) iface) ≡ true
  pub bound : a.binds ≡ true

-- The four lines that the user types.
abbrev pub typed : Bytes → ℕ → Bytes → Bytes
typed iface d filename = iface ++ 10 ∷ (48 + d) ∷ 10 ∷ (utf8 "y\n" ++ (filename ++ 10 ∷ []))

abbrev pub chosen : Answers → Bytes → ℕ → Bytes → Choices
chosen a iface d filename = record {
  iface = iface;
  filter_type = select_filter (pos d);
  file = open_output a filename;
}

module _ (a : Answers) (junk : Junk) (iface filename : Bytes) (d : ℕ) (small : d < 10)
    (iface_typed : IsTyped iface) (iface_fits : length iface < ifnamsiz)
    (filename_typed : IsTyped filename) (filename_fits : length filename < max_filename) where
  abbrev rest : Bytes
  rest = utf8 "y\n" ++ (filename ++ 10 ∷ [])

  choices-typed : choices a junk iface ((48 + d) ∷ 10 ∷ rest) ≡ chosen a iface d filename
  unfolding choices
  choices-typed =
      ap
        (λ f. record {
          iface = iface;
          filter_type = f.0;
          file = setup_output_file a junk.answer junk.filename f.1;
        })
        (choose_filter-digit junk.choice d rest small)
      ∙ ap (λ file. record { iface = iface; filter_type = select_filter (pos d); file = file })
          (setup-yes a junk.answer junk.filename filename [] filename_typed filename_fits)

  choices-newline : choices a junk iface (10 ∷ (48 + d) ∷ 10 ∷ rest) ≡ chosen a iface d filename
  unfolding choices
  choices-newline =
      ap
        (λ f. record {
          iface = iface;
          filter_type = f.0;
          file = setup_output_file a junk.answer junk.filename f.1;
        })
        (choose_filter-newline junk.choice ((48 + d) ∷ 10 ∷ rest))
      ∙ choices-typed

  module _ (permits : Permits a iface) (s : Capture) (arrivals : List Arrival) where
    after_interface :
        (left : Bytes)
        → choices a junk iface left ≡ chosen a iface d filename
        → sniff_on a junk (iface, left) s arrivals
          ≡ ended
              (opened raw_sock ∷ [])
              (chosen a iface d filename)
              (capture_packets (select_filter (pos d)) s arrivals)
    unfolding sniff_on create_raw_socket
    after_interface left f =
        rw (permits.socket, permits.index, permits.bound)
          (ap (λ c. ended (opened raw_sock ∷ []) c (capture_packets c.filter_type s arrivals)) f)

    main-ended :
        main a junk (typed iface d filename) s arrivals
        ≡ ended
            (opened raw_sock ∷ [])
            (chosen a iface d filename)
            (capture_packets (select_filter (pos d)) s arrivals)
    unfolding main
    main-ended =
        let name =
          select_interface-name junk.iface iface ((48 + d) ∷ 10 ∷ rest) iface_typed iface_fits in
        elim name [
          | inl e ↦ rw permits.root (
              ap (λ i. sniff_on a junk i s arrivals) e
              ∙ after_interface ((48 + d) ∷ 10 ∷ rest) choices-typed)
          | inr e ↦ rw permits.root (
              ap (λ i. sniff_on a junk i s arrivals) e
              ∙ after_interface (10 ∷ (48 + d) ∷ 10 ∷ rest) choices-newline)
        ]

-- The packets are those of the line of the menu.
abbrev pub AllWanted : Option ℕ → List PacketInfo → Type 0
AllWanted port [] = Unit {0}
AllWanted port (p ∷ ps) = (wanted port p ≡ true) × AllWanted port ps

AllPass-AllWanted :
    (choice : ℤ) (ps : List PacketInfo)
    → AllPass (select_filter choice) ps
    → AllWanted (menu_port choice) ps
AllPass-AllWanted choice [] h = tt
AllPass-AllWanted choice (p ∷ ps) h =
    (sym (check-select choice p) ∙ h.0, AllPass-AllWanted choice ps h.1)

-- A run that has listened on `iface`, shown and counted packets of the menu line `d` only, freed all
-- blocks, and written into the file of the name, if that could be opened. A copy past the end of the
-- buffer ends a run before.
abbrev pub AsTyped : Answers → Bytes → ℕ → Bytes → Outcome → Type 0
AsTyped a iface d filename (exited events) = ⊥
AsTyped a iface d filename crashed = Unit {0}
AsTyped a iface d filename (returned events c s) =
    (c.iface ≡ iface)
    × (c.file ≡ open_output a filename)
    × AllWanted (menu_port (pos d)) s.printed
    × (s.packet_count ≡ length s.printed)
    × (s.allocs ≡ s.frees)

ended-AsTyped :
    (a : Answers) (iface filename : Bytes) (d : ℕ) (r : Option Capture)
    → Keeps (select_filter (pos d)) r
    → AsTyped a iface d filename (ended (opened raw_sock ∷ []) (chosen a iface d filename) r)
ended-AsTyped a iface filename d none k = tt
ended-AsTyped a iface filename d (some s) k =
    (refl, refl, AllPass-AllWanted (pos d) s.printed k.passed, k.counted, k.balanced)

-- The user types an interface of at most 15 bytes, a digit, "y" and a file name of at most 255 bytes,
-- each on a line of its own, both names not empty; and the kernel gives the socket. Then, whatever
-- arrives, main returns unless a copy runs past the end of the buffer; and it has listened on that
-- interface, shown and counted just packets with the port of that line of the menu (all packets
-- for a digit that has none), freed every block, and used that file if it could be opened.
pub main-AsTyped :
    (a : Answers) (junk : Junk) (iface filename : Bytes) (d : ℕ) (s : Capture)
    (arrivals : List Arrival)
    → d < 10
    → IsTyped iface
    → length iface < ifnamsiz
    → IsTyped filename
    → length filename < max_filename
    → Permits a iface
    → Inv (select_filter (pos d)) s
    → AsTyped a iface d filename (main a junk (typed iface d filename) s arrivals)
main-AsTyped a junk iface filename d s arrivals small it ifits ft ffits permits start =
    rw (main-ended a junk iface filename d small it ifits ft ffits permits s arrivals) (
      ended-AsTyped a iface filename d (capture_packets (select_filter (pos d)) s arrivals)
        (capture-Keeps (select_filter (pos d)) s arrivals start))
