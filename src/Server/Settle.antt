-- ===== src/Server/Settle.antt =====
-- No accepted descriptor of 07/server.c is lost: it is in the table or it is closed.
use eltex_modul.Common.{
  ℕ, ◌≡◌, refl, ap, Bool, true, false, ◌||◌, Option, none, some, List, [], ◌∷◌, arith, ◌⊎◌, inl,
  inr, ltb, length, set, Bool-cases,
}
use eltex_modul.Common.Int.{ℤ, pos, ◌==ℤ◌, ltb_ℤ}
use eltex_modul.Common.Text.{Bytes, utf8, c_str, starts_with}
use eltex_modul.Server.{
  Client, Server, Effect, send, close, epoll_add, epoll_del, set_nonblock, max_clients,
  find_client_by_fd, broadcast_message, send_others,
}
use eltex_modul.Server.Connection.{
  Arrival, register, greet, first_packet, after, admit, handle_new_connection, name_size, newcomer,
  watching, join_msg,
}
use eltex_modul.Server.Inv.{is_some, Inv}
use eltex_modul.Server.Slots.{FreeAt}
use eltex_modul.Server.Admission.{IsFresh, find_free_slot-FreeAt, fill-Filled}

unfoldable pub is_closed : ℤ → List Effect → Bool
is_closed fd [] = false
is_closed fd (send gd m ∷ es) = is_closed fd es
is_closed fd (epoll_add gd ∷ es) = is_closed fd es
is_closed fd (epoll_del gd ∷ es) = is_closed fd es
is_closed fd (set_nonblock gd ∷ es) = is_closed fd es
is_closed fd (close gd ∷ es) = (gd ==ℤ fd) || is_closed fd es

-- The descriptor is in a slot, or it is closed and the table is as it was.
abbrev pub Settled : Server → ℤ → Option (Server × List Effect) → Type 0
Settled s fd none = Unit {0}
Settled s fd (some (t, es)) =
    ((is_some (find_client_by_fd t fd) ≡ true) × (is_closed fd es ≡ false))
    ⊎ ((t ≡ s) × (is_closed fd es ≡ true))

is_closed-send_others :
    (fd sender : ℤ) (m : Bytes) (cs : List Client) → is_closed fd (send_others sender m cs) ≡ false
unfolding is_closed send_others
is_closed-send_others fd sender m [] = refl
is_closed-send_others fd sender m (c ∷ cs) = ground (arith, is_closed-send_others fd sender m cs)

closed_at_once : (s : Server) (n : ℕ) → Settled s (pos n) (some (s, close (pos n) ∷ []))
unfolding is_closed
closed_at_once s n = inr (refl, ground arith)

register-Settled :
    (s : Server) (n k : ℕ) (name : Bytes)
    → Inv s
    → IsFresh s (pos n)
    → FreeAt s.clients k
    → Settled s (pos n) (register s (pos n) k name)
unfolding register find_client_by_fd broadcast_message
register-Settled s n k name v fresh f = elim (Bool-cases (ltb (length name) name_size)) [
  | inr over ↦ rw (over, register) tt
  | inl fits ↦
      rw (fits, register)
        (inl (
          ap is_some (fill-Filled s n k name v fresh f fits).there,
          is_closed-send_others (pos n) (pos n) (join_msg name)
              (set s.clients k (newcomer (pos n) name)),
        ))
]

first_packet-Settled :
    (s : Server) (n k : ℕ) (packet : Option Bytes) (junk : Bytes)
    → Inv s
    → IsFresh s (pos n)
    → FreeAt s.clients k
    → Settled s (pos n) (first_packet s (pos n) k packet junk)
unfolding first_packet greet
first_packet-Settled s n k none junk v fresh f = closed_at_once s n
first_packet-Settled s n k (some []) junk v fresh f = closed_at_once s n
first_packet-Settled s n k (some (b ∷ bs)) junk v fresh f =
    elim (Bool-cases (starts_with (utf8 "INIT:") (c_str (b ∷ bs)))) [
      | inl init ↦ rw init (register-Settled s n k _ v fresh f)
      | inr bad ↦ rw bad (closed_at_once s n)
    ]

watching-Settled :
    (s : Server) (n : ℕ) (r : Option (Server × List Effect))
    → Settled s (pos n) r
    → Settled s (pos n) (after (watching (pos n)) r)
unfolding after is_closed
watching-Settled s n none h = h
watching-Settled s n (some (t, es)) h = h

admit-Settled :
    (s : Server) (k n : ℕ) (a : Arrival)
    → a.accepted ≡ pos n
    → Inv s
    → IsFresh s (pos n)
    → FreeAt s.clients k
    → Settled s (pos n) (admit s k a)
unfolding admit
admit-Settled s k n a e v fresh f =
    rw (e, admit)
      (watching-Settled s n _ (elim (Bool-cases a.watched) [
        | inl ready ↦ rw ready (first_packet-Settled s n k a.packet a.junk v fresh f)
        | inr bad ↦ rw bad (closed_at_once s n)
      ]))

-- Whatever the kernel and the peer answer, an accepted descriptor ends up in an active slot and open,
-- or it is closed and the table is as it was, unless the name overflows its buffer. The state meets
-- the invariant, and the descriptor is in no slot before.
pub handle_new_connection-Settled :
    (s : Server) (n : ℕ) (a : Arrival)
    → a.accepted ≡ pos n
    → Inv s
    → IsFresh s (pos n)
    → Settled s (pos n) (handle_new_connection s a)
unfolding handle_new_connection is_closed
handle_new_connection-Settled s n a e v fresh =
    elim (Bool-cases (ltb_ℤ s.client_count (pos max_clients))) [
      | inr full ↦ rw (e, full, handle_new_connection) (inr (refl, ground arith))
      | inl room ↦
          let (k, found, f) = find_free_slot-FreeAt s v room in
          rw (e, room, found, handle_new_connection) (admit-Settled s k n a e v fresh f)
    ]
