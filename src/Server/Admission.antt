-- ===== src/Server/Admission.antt =====
-- `handle_new_connection` of 07/server.c keeps the client table well formed.
use eltex_modul.Common.{
  ℕ, ◌∙◌, ◌≡◌, refl, inl, inr, true, false, Option, none, some, List, [], ◌∷◌, ltb, length, set,
  arith, Bool-cases,
}
use eltex_modul.Common.Int.{ℤ, pos, negsuc, ◌+ℤ◌, ltb_ℤ, is_negative}
use eltex_modul.Common.Text.{Bytes, c_str, starts_with, utf8}
use eltex_modul.Server.{Client, Server, Effect, max_clients, find_free_slot, find_client_by_fd}
use eltex_modul.Server.Connection.{
  Arrival, register, greet, first_packet, after, admit, handle_new_connection, name_size, newcomer,
  with_client, watching,
}
use eltex_modul.Server.Inv.{Inv}
use eltex_modul.Server.Slots.{FreeAt, free_slot-FreeAt, Filled, set-Filled}

-- A descriptor that `accept` returns is in no active slot.
abbrev pub IsFresh : Server → ℤ → Type 0
IsFresh s fd = find_client_by_fd s fd ≡ none

-- The result of a handler that may overflow: where it has one, it is right.
abbrev pub Keeps : Option (Server × List Effect) → Type 0
Keeps none = Unit {0}
Keeps (some (s, effects)) = Inv s

pub after-Keeps :
    (before : List Effect) (r : Option (Server × List Effect)) → Keeps r → Keeps (after before r)
unfolding after
after-Keeps before none k = k
after-Keeps before (some (s, effects)) k = k

-- While the table has room, `find_free_slot` finds a slot that is free.
pub find_free_slot-FreeAt :
    (s : Server)
    → Inv s
    → ltb_ℤ s.client_count (pos max_clients) ≡ true
    → (k : ℕ) × (find_free_slot s ≡ some k) × FreeAt s.clients k
unfolding find_free_slot
find_free_slot-FreeAt s v room =
    let (k, e, f) = free_slot-FreeAt 0 s.clients (ground (arith, v.size, v.count)) in
    (k, e ∙ ground arith, f)

pub fill-Filled :
    (s : Server) (n k : ℕ) (name : Bytes)
    → Inv s
    → IsFresh s (pos n)
    → FreeAt s.clients k
    → ltb (length name) name_size ≡ true
    → Filled s.clients (newcomer (pos n) name) (set s.clients k (newcomer (pos n) name))
unfolding find_client_by_fd
fill-Filled s n k name v fresh f fits =
    set-Filled (newcomer (pos n) name) (refl, fits) refl s.clients k f v.table fresh

pub with_client-Inv :
    (s : Server) (d : Client) (ds : List Client)
    → Inv s
    → Filled s.clients d ds
    → Inv (with_client s ds)
unfolding ◌+ℤ◌
with_client-Inv s d ds v r = record {
  size = ground (arith, r.size, v.size);
  count = ground (arith, r.count, v.count);
  table = r.table;
}

register-Keeps :
    (s : Server) (n k : ℕ) (name : Bytes)
    → Inv s
    → IsFresh s (pos n)
    → FreeAt s.clients k
    → Keeps (register s (pos n) k name)
unfolding register
register-Keeps s n k name v fresh f = elim (Bool-cases (ltb (length name) name_size)) [
  | inr over ↦ rw (over, register) tt
  | inl fits ↦ rw (fits, register) (with_client-Inv s _ _ v (fill-Filled s n k name v fresh f fits))
]

first_packet-Keeps :
    (s : Server) (n k : ℕ) (packet : Option Bytes) (junk : Bytes)
    → Inv s
    → IsFresh s (pos n)
    → FreeAt s.clients k
    → Keeps (first_packet s (pos n) k packet junk)
unfolding first_packet greet
first_packet-Keeps s n k none junk v fresh f = v
first_packet-Keeps s n k (some []) junk v fresh f = v
first_packet-Keeps s n k (some (b ∷ bs)) junk v fresh f =
    elim (Bool-cases (starts_with (utf8 "INIT:") (c_str (b ∷ bs)))) [
      | inl init ↦ rw init (register-Keeps s n k _ v fresh f)
      | inr bad ↦ rw bad v
    ]

admit-Keeps :
    (s : Server) (k n : ℕ) (a : Arrival)
    → a.accepted ≡ pos n
    → Inv s
    → IsFresh s (pos n)
    → FreeAt s.clients k
    → Keeps (admit s k a)
unfolding admit
admit-Keeps s k n a e v fresh f = after-Keeps (watching a.accepted) _ (elim (Bool-cases a.watched) [
  | inl yes' ↦ rw (yes', e) (first_packet-Keeps s n k a.packet a.junk v fresh f)
  | inr no' ↦ rw no' v
])

-- A new connection keeps the table well formed.
pub handle_new_connection-Keeps :
    (s : Server) (a : Arrival)
    → Inv s
    → (is_negative a.accepted ≡ false → IsFresh s a.accepted)
    → Keeps (handle_new_connection s a)
unfolding handle_new_connection
handle_new_connection-Keeps s a v fresh = go a.accepted refl
  where
    go : (fd : ℤ) → a.accepted ≡ fd → Keeps (handle_new_connection s a)
    go (negsuc n) e = rw (e, handle_new_connection) v
    go (pos n) e = elim (Bool-cases (ltb_ℤ s.client_count (pos max_clients))) [
      | inr full ↦ rw (e, full, handle_new_connection) v
      | inl room ↦
          let (k, found, f) = find_free_slot-FreeAt s v room in
          rw (e, room, found, handle_new_connection)
            (admit-Keeps s k n a e v (rw e at (fresh (rw e refl))) f)
    ]
