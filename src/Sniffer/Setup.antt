-- ===== src/Sniffer/Setup.antt =====
-- main of 08/udp_sniffer.c with select_interface, select_filter, create_raw_socket and setup_output_file.
--
-- The console is the list of the bytes that the user types, and what the calls of the kernel answer is
-- a record. What an array or a variable holds before it is filled is an argument. The trace lists the
-- descriptors that are opened and closed. The text of the prompts is left out.
use eltex_modul.Common.{
  ℕ, ◌-◌, Bool, true, false, not, ◌||◌, Option, none, some, List, [], ◌∷◌, ◌++◌, if◌then◌else◌,
  ◌==◌, length, take, drop, get_or,
}
use eltex_modul.Common.Handles.{Event, opened, closed}
use eltex_modul.Common.Int.{ℤ, to_u32, of_u32}
use eltex_modul.Common.Decimal.{read_sign, is_digit}
use eltex_modul.Common.Text.{Bytes, utf8, c_str, fgets, cut_newline, skip_space, span}
use eltex_modul.Sniffer.{select_filter}
use eltex_modul.Sniffer.Capture.{Capture, Arrival, capture_packets}

abbrev pub ifnamsiz : ℕ
ifnamsiz = 16

abbrev pub max_filename : ℕ
max_filename = 256

-- fgets with an array of `size` bytes, which it leaves alone at the end of the input.
unfoldable pub fgets_into : ℕ → Bytes → Bytes → Bytes × Bytes
fgets_into size junk [] = (junk, [])
fgets_into size junk (c ∷ cs) = fgets (size - 1) (c ∷ cs)

abbrev pub or_default : Bytes → Bytes → Bytes
or_default default name = if length name == 0 then default else name

unfoldable pub select_interface : Bytes → Bytes → Bytes × Bytes
unfolding fgets_into cut_newline c_str
select_interface junk input =
    let r = fgets_into ifnamsiz junk input in
    (or_default (utf8 "eth0") (cut_newline (c_str r.0)), r.1)

abbrev pub is_sign : ℕ → Bool
is_sign c = c == b'-' || c == b'+'

abbrev pub skip_sign : Bytes → Bytes
skip_sign [] = []
skip_sign (c ∷ cs) = if is_sign c then cs else c ∷ cs

abbrev pub int_or : ℤ → Option ℤ → ℤ
int_or junk none = junk
int_or junk (some z) = of_u32 (to_u32 z)

-- scanf of `%d`: the value, and what is left of the input. A number that is no int is cut to one.
unfoldable pub scan_int : ℤ → Bytes → ℤ × Bytes
unfolding skip_space span read_sign
scan_int junk input =
    let s = skip_space input in
    (int_or junk (read_sign s), (span is_digit (length s) (skip_sign s)).1)

-- scanf and getchar, then the switch.
unfoldable pub choose_filter : ℤ → Bytes → Bytes × Bytes
unfolding scan_int select_filter
choose_filter junk input = let r = scan_int junk input in (select_filter r.0, drop 1 r.1)

-- What the kernel answers.
pub record Answers : Type 0 where
  pub is_root : Bool
  pub has_socket : Bool
  pub has_index : Bytes → Bool
  pub binds : Bool
  pub opens : Bytes → Bool

pub data Handle : Type 0 where
  raw_sock : Handle
  output_file : Handle

-- The trace, and whether a socket is returned.
unfoldable pub create_raw_socket : Answers → Bytes → List (Event Handle) × Bool
create_raw_socket a iface =
    if not a.has_socket
    then ([], false)
    else if not (a.has_index (take (ifnamsiz - 1) iface))
    then (opened raw_sock ∷ closed raw_sock ∷ [], false)
    else if not a.binds
    then (opened raw_sock ∷ closed raw_sock ∷ [], false)
    else (opened raw_sock ∷ [], true)

abbrev pub is_yes : Bytes → Bool
is_yes answer = let c = get_or answer 0 0 in c == b'y' || c == b'Y'

abbrev pub open_output : Answers → Bytes → Option Bytes
open_output a filename = if a.opens filename then some filename else none

-- The name of the file that is open behind it, if one is. `junk` and `junk_name` are the two arrays.
unfoldable pub setup_output_file : Answers → Bytes → Bytes → Bytes → Option Bytes
unfolding fgets_into cut_newline c_str
setup_output_file a junk junk_name input =
    let r = fgets_into 10 junk input in
    let name = (fgets_into max_filename junk_name r.1).0 in
    if is_yes r.0
    then open_output a (or_default (utf8 "output.txt") (cut_newline (c_str name)))
    else none

abbrev pub opening : Option Bytes → List (Event Handle)
opening none = []
opening (some name) = opened output_file ∷ []

abbrev pub closing : Option Bytes → List (Event Handle)
closing none = []
closing (some name) = closed output_file ∷ []

-- What the variables of main and of its callees hold before they are filled.
pub record Junk : Type 0 where
  pub iface : Bytes
  pub choice : ℤ
  pub answer : Bytes
  pub filename : Bytes

pub record Choices : Type 0 where
  pub iface : Bytes
  pub filter_type : Bytes
  pub file : Option Bytes

-- exit(1); a copy past the end of the buffer; or the end of main.
pub data Outcome : Type 0 where
  exited : List (Event Handle) → Outcome
  crashed : Outcome
  returned : List (Event Handle) → Choices → Capture → Outcome

unfoldable pub choices : Answers → Junk → Bytes → Bytes → Choices
unfolding choose_filter setup_output_file
choices a junk iface input =
    let f = choose_filter junk.choice input in
    record {
      iface = iface;
      filter_type = f.0;
      file = setup_output_file a junk.answer junk.filename f.1;
    }

abbrev pub ended : List (Event Handle) → Choices → Option Capture → Outcome
ended events c none = crashed
ended events c (some s) =
    returned (events ++ (opening c.file ++ (closing c.file ++ closed raw_sock ∷ []))) c s

-- What follows the choice of the interface: its name, and what is left of the input.
unfoldable pub sniff_on : Answers → Junk → Bytes × Bytes → Capture → List Arrival → Outcome
unfolding create_raw_socket choices capture_packets
sniff_on a junk i s arrivals =
    let r = create_raw_socket a i.0 in
    let c = choices a junk i.0 i.1 in
    if r.1 then ended r.0 c (capture_packets c.filter_type s arrivals) else exited r.0

unfoldable pub main : Answers → Junk → Bytes → Capture → List Arrival → Outcome
unfolding select_interface sniff_on
main a junk input s arrivals =
    if a.is_root then sniff_on a junk (select_interface junk.iface input) s arrivals else exited []
