-- ===== src/Server/Preserve.antt =====
-- The handlers of 07/server.c keep the client table well formed.
use eltex_modul.Common.{ℕ, inl, inr, Option, none, some, [], ◌∷◌, arith, Option-cases}
use eltex_modul.Common.Int.{pos}
use eltex_modul.Common.Text.{Bytes, c_str}
use eltex_modul.Server.{Client, Server, find_client_by_fd}
use eltex_modul.Server.Message.{
  Junk, lost_client, close_client, received, Request, closing, file_start, file_end, mes, other,
  classify, perform, handle_client_message,
}
use eltex_modul.Server.Inv.{Inv, take_slot-tests, take_slot-Taken, without-Inv}

lost_client-Inv : (s : Server) (n : ℕ) → Inv s → Inv (lost_client s (pos n)).0
unfolding lost_client
lost_client-Inv s n v = elim (take_slot-Taken n s.clients v.table) [
  | inl e ↦ rw (e, lost_client) v
  | inr (c, ds, e, l) ↦ rw (e, lost_client) (without-Inv s n ds v l)
]

close_client-Inv : (s : Server) (n : ℕ) (c : Client) → Inv s → Inv (close_client s (pos n) c).0
unfolding close_client
close_client-Inv s n c v =
    rw (take_slot-tests n s.clients v.table, close_client)
      (elim (take_slot-Taken n s.clients v.table) [
        | inl e ↦ rw (e, close_client) v
        | inr (d, ds, e, l) ↦ rw (e, close_client) (without-Inv s n ds v l)
      ])

perform-Inv :
    (s : Server) (n : ℕ) (c : Client) (text : Bytes) (junk : Junk) (r : Request)
    → Inv s
    → Inv (perform s (pos n) c text junk r).0
unfolding perform
perform-Inv s n c text junk closing v = close_client-Inv s n c v
perform-Inv s n c text junk file_start v = v
perform-Inv s n c text junk file_end v = v
perform-Inv s n c text junk mes v = v
perform-Inv s n c text junk other v = v

received-Inv :
    (s : Server) (n : ℕ) (text : Bytes) (junk : Junk) → Inv s → Inv (received s (pos n) text junk).0
unfolding received
received-Inv s n text junk v = elim (Option-cases (find_client_by_fd s (pos n))) [
  | inl e ↦ rw (e, received) v
  | inr (c, e) ↦ rw (e, received) (ground (arith, perform-Inv s n c text junk (classify text) v))
]

pub handle_client_message-Inv :
    (s : Server) (n : ℕ) (packet : Option Bytes) (junk : Junk)
    → Inv s
    → Inv (handle_client_message s (pos n) packet junk).0
unfolding handle_client_message
handle_client_message-Inv s n none junk v = lost_client-Inv s n v
handle_client_message-Inv s n (some []) junk v = lost_client-Inv s n v
handle_client_message-Inv s n (some (b ∷ bs)) junk v = received-Inv s n (c_str (b ∷ bs)) junk v
