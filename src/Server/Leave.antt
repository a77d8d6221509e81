-- ===== src/Server/Leave.antt =====
-- How a client leaves the chat of 07/server.c: by "CLOSE:" or by a lost connection.
use eltex_modul.Common.{
  ℕ, ◌≡◌, refl, ap, ◌∙◌, false, none, some, List, [], ◌∷◌, ◌++◌, inl, inr, append-nil,
}
use eltex_modul.Common.Int.{ℤ, pos, ◌==ℤ◌}
use eltex_modul.Common.Text.{Bytes, utf8, c_str}
use eltex_modul.Server.{
  Client, Server, Effect, close, epoll_del, find_client_by_fd, broadcast_message,
}
use eltex_modul.Server.Message.{
  Junk, take_slot, holds, leave_msg, lost_client, close_client, classify, perform, received,
  handle_client_message,
}
use eltex_modul.Server.Inv.{
  Inv, Left, take_slot-tests, take_slot-find_in, take_slot-Taken, slot_client, without-Inv,
}
use eltex_modul.Server.Reach.{find_in-nonneg}
use eltex_modul.Server.Broadcast.{inbox, inbox-append, delivery, inbox-broadcast}

-- The slot that the loops give up is the one that `find_client_by_fd` finds.
found-Left :
    (s : Server) (n : ℕ) (c : Client)
    → Inv s
    → find_client_by_fd s (pos n) ≡ some c
    → (ds : List Client) × (take_slot (holds (pos n)) s.clients ≡ some (c, ds))
      × Left (pos n) s.clients ds
unfolding find_client_by_fd
found-Left s n c v found = elim (take_slot-Taken n s.clients v.table) [
  | inl e ↦ cc (take_slot-find_in (pos n) s.clients)
  | inr (d, ds, e, l) ↦
      let same : d ≡ c = cc (take_slot-find_in (pos n) s.clients, ap slot_client e) in
      (ds, rw (← same) e, l)
]

-- What is left behind when the client `c` of `fd` goes.
pub record Departure (s : Server) (fd : ℤ) (c : Client) (r : Server × List Effect) : Type 0 where
  pub valid : Inv r.0
  pub gone : find_client_by_fd r.0 fd ≡ none
  pub others : (gd : ℤ) → (gd ==ℤ fd) ≡ false → find_client_by_fd r.0 gd ≡ find_client_by_fd s gd
  pub told : (gd : ℤ) → inbox gd r.1 ≡ delivery s fd (leave_msg c.name) gd
  pub closed : r.1 ≡ broadcast_message s fd (leave_msg c.name) ++ epoll_del fd ∷ close fd ∷ []

lost_client-Departure :
    (s : Server) (n : ℕ) (c : Client)
    → Inv s
    → find_client_by_fd s (pos n) ≡ some c
    → Departure s (pos n) c (lost_client s (pos n))
unfolding lost_client find_client_by_fd inbox
lost_client-Departure s n c v found =
    let (ds, e, l) = found-Left s n c v found in
    rw (e, lost_client)
      (record {
        valid = without-Inv s n ds v l;
        gone = l.gone;
        others = l.others;
        told = λ gd.
            inbox-append gd (broadcast_message s (pos n) (leave_msg c.name)) _
            ∙ append-nil _
            ∙ inbox-broadcast s (pos n) (leave_msg c.name) gd v;
        closed = refl;
      })

close_client-lost :
    (s : Server) (n : ℕ) (c : Client)
    → Inv s
    → find_client_by_fd s (pos n) ≡ some c
    → close_client s (pos n) c ≡ lost_client s (pos n)
unfolding close_client lost_client
close_client-lost s n c v found =
    let (ds, e, l) = found-Left s n c v found in
    rw (take_slot-tests n s.clients v.table, close_client) (rw (e, close_client, lost_client) refl)

-- A "CLOSE:" packet of a client, whatever stands behind the word, has the very effects and the very
-- result of a lost connection, in a state that meets the invariant.
pub close-lost :
    (s : Server) (n : ℕ) (c : Client) (rest : Bytes) (junk : Junk)
    → Inv s
    → find_client_by_fd s (pos n) ≡ some c
    → handle_client_message s (pos n) (some (utf8 "CLOSE:" ++ rest)) junk
      ≡ handle_client_message s (pos n) none junk
unfolding handle_client_message classify perform c_str find_client_by_fd
close-lost s n c rest junk v found =
    let active = (find_in-nonneg (pos n) s.clients c v.table found).1 in
    rw (found, active, received) (close_client-lost s n c v found)

-- When the connection of a client is lost, its descriptor is found no more and every other one gives
-- what it gave, the invariant holds, every other active client is sent "LEAVE:" with the name once
-- and nobody else anything, and then the descriptor leaves epoll and is closed.
pub lost-Departure :
    (s : Server) (n : ℕ) (c : Client) (junk : Junk)
    → Inv s
    → find_client_by_fd s (pos n) ≡ some c
    → Departure s (pos n) c (handle_client_message s (pos n) none junk)
unfolding handle_client_message
lost-Departure s n c junk v found = lost_client-Departure s n c v found
