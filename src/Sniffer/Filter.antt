-- ===== src/Sniffer/Filter.antt =====
-- The filters of 08/udp_sniffer.c: what the user chooses is what passes.
use eltex_modul.Common.{ℕ, ◌≡◌, refl, Bool, true, Option, none, some, if◌then◌else◌, ◌==◌, arith}
use eltex_modul.Common.Int.{ℤ, pos, negsuc}
use eltex_modul.Sniffer.{PacketInfo, uses_port, check_filter, select_filter}

-- The port of each line of the menu; `none` for all packets.
unfoldable pub menu_port : ℤ → Option ℕ
menu_port (negsuc n) = none
menu_port (pos n) =
    if n == 1 then some 8888 else if n == 2 then some 53 else if n == 3 then some 80 else none

abbrev pub wanted : Option ℕ → PacketInfo → Bool
wanted none p = true
wanted (some port) p = uses_port port p

-- For every number that the user may type, a packet passes exactly when one of its ports is that of
-- the menu line, and every packet passes for line 4 and for a number that is no line.
pub check-select :
    (choice : ℤ) (p : PacketInfo)
    → check_filter (select_filter choice) p ≡ wanted (menu_port choice) p
unfolding check_filter select_filter menu_port
check-select (negsuc n) p = refl
check-select (pos n) p = ground arith
