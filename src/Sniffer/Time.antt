-- ===== src/Sniffer/Time.antt =====
-- `get_time_diff` of 08/udp_sniffer.c. The values stay far below what a long long holds.
use eltex_modul.Common.{ℕ, suc, ◌+◌, ◌*◌, ◌≡◌, arith}
use eltex_modul.Common.Int.{ℤ, pos, negsuc, ◌+ℤ◌, ◌-ℤ◌, int_laws, sub_ℕ, pos_part, neg_part}
use eltex_modul.Sniffer.{Timeval}

-- k * a.
unfoldable pub scale : ℕ → ℤ → ℤ
scale k (pos n) = pos (k * n)
scale k (negsuc n) = sub_ℕ 0 (k * suc n)

unfoldable pub get_time_diff : Timeval → Timeval → ℤ
unfolding scale
get_time_diff start end = scale 1_000_000 (end.sec -ℤ start.sec) +ℤ (end.usec -ℤ start.usec)

scale_parts :
    (k : ℕ) (a : ℤ) → pos_part (scale k a) + k * neg_part a ≡ neg_part (scale k a) + k * pos_part a
unfolding scale
scale_parts k (pos n) = omega arith
scale_parts k (negsuc n) = ground arith

diff_parts :
    (s e : Timeval)
    → pos_part (get_time_diff s e)
        + (1_000_000 * neg_part e.sec
            + 1_000_000 * pos_part s.sec
            + neg_part e.usec
            + pos_part s.usec)
      ≡ neg_part (get_time_diff s e)
        + (1_000_000 * pos_part e.sec
            + 1_000_000 * neg_part s.sec
            + pos_part e.usec
            + neg_part s.usec)
unfolding get_time_diff
diff_parts s e = omega (int_laws, scale_parts 1_000_000 (e.sec -ℤ s.sec))

-- The differences along two intervals add up to that of the whole, whatever the signs and however
-- large the microseconds are.
pub diff-add : (a b c : Timeval) → get_time_diff a b +ℤ get_time_diff b c ≡ get_time_diff a c
diff-add a b c = omega (int_laws, diff_parts a b, diff_parts b c, diff_parts a c)
