-- ===== src/Server/Reach.antt =====
-- The states that the server of 07/server.c can reach, whatever the clients and the kernel do.
use eltex_modul.Common.{
  ℕ, ◌≡◌, refl, inl, inr, true, false, some, List, [], ◌∷◌, length, arith, ◌≤◌, Bool-cases,
  Option-cases,
}
use eltex_modul.Common.Int.{ℤ, pos, negsuc, ◌==ℤ◌, is_negative}
use eltex_modul.Server.{
  Client, Server, Effect, max_clients, find_in, find_client_by_fd, init_clients,
}
use eltex_modul.Server.Message.{handle_client_message}
use eltex_modul.Server.Loop.{Event, dispatch}
use eltex_modul.Server.Inv.{active_count, Table, Inv}
use eltex_modul.Server.Preserve.{handle_client_message-Inv}
use eltex_modul.Server.Admission.{IsFresh, Keeps, handle_new_connection-Keeps}

-- A descriptor that is found is not negative, and its slot is active.
pub find_in-nonneg :
    (fd : ℤ) (cs : List Client) (c : Client)
    → Table cs
    → find_in fd cs ≡ some c
    → (is_negative fd ≡ false) × (c.active ≡ true) × ((c.fd ==ℤ fd) ≡ true)
unfolding find_in
find_in-nonneg fd [] c t e = cc
find_in-nonneg (pos n) (d ∷ cs) c t e = ground (arith, find_in-nonneg (pos n) cs c t.2)
find_in-nonneg (negsuc n) (d ∷ cs) c t e = ground (arith, find_in-nonneg (negsuc n) cs c t.2)

-- `accept` never returns the descriptor of a connection that is still open.
abbrev pub Honest : Server → Event → Type 0
Honest s e = is_negative e.arrival.accepted ≡ false → IsFresh s e.arrival.accepted

served-Inv :
    (s : Server) (e : Event) (fd : ℤ)
    → fd ≡ e.fd
    → is_negative fd ≡ false
    → Inv s
    → Inv (handle_client_message s e.fd e.packet e.junk).0
served-Inv s e (pos n) q h v = rw (← q) (handle_client_message-Inv s n e.packet e.junk v)
served-Inv s e (negsuc n) q h v = cc

pub dispatch-Keeps : (s : Server) (e : Event) → Inv s → Honest s e → Keeps (dispatch s e)
unfolding dispatch find_client_by_fd
dispatch-Keeps s e v h = elim (Bool-cases (e.fd ==ℤ s.server_fd)) [
  | inl new ↦ rw new (handle_new_connection-Keeps s e.arrival v h)
  | inr old ↦ elim (Option-cases (find_in e.fd s.clients)) [
    | inl gone ↦ rw (old, gone, dispatch) v
    | inr (c, found) ↦
        let (nonneg, active, same) = find_in-nonneg e.fd s.clients c v.table found in
        rw (old, found, active, dispatch) (served-Inv s e e.fd refl nonneg v)
  ]
]

-- One event, handled without an overflow.
pub data Step (s t : Server) : Type 0 where
  event :
      (e : Event) (effects : List Effect) → Honest s e → dispatch s e ≡ some (t, effects) → Step s t

pub data Reach (s : Server) : Server → Type 0 where
  here : Reach s s
  next : {t u : Server} → Reach s t → Step t u → Reach s u

pub Step-Inv : {s t : Server} → Step s t → Inv s → Inv t
Step-Inv {s} {t} (event e effects h q) v = rw q at (dispatch-Keeps s e v h)

pub init_clients-Inv : (s : Server) → s.client_count ≡ pos 0 → Inv (init_clients s)
unfolding init_clients find_in
init_clients-Inv s z = record { size = refl; count = z; table = ground arith }

pub Reach-Inv : {s t : Server} → Reach s t → Inv s → Inv t
Reach-Inv here v = v
Reach-Inv (next r st) v = Step-Inv st (Reach-Inv r v)

pub active_count-le : (cs : List Client) → active_count cs ≤ length cs
active_count-le [] = omega arith
active_count-le (c ∷ cs) = ground (arith, active_count-le cs)

-- From the start of the program, with the counter at 0, every reachable table has 30 slots, the
-- counter is the number of active slots and lies between 0 and 30, a slot has a descriptor exactly
-- when it is active, and no descriptor is in two active slots. It is assumed that `accept` returns
-- no descriptor that an active slot holds.
pub Reach-init :
    (s : Server) {t : Server}
    → s.client_count ≡ pos 0
    → Reach (init_clients s) t
    → Inv t × ((n : ℕ) × (t.client_count ≡ pos n) × (n ≤ max_clients))
Reach-init s {t} z r =
    let v = Reach-Inv r (init_clients-Inv s z) in
    (v, (active_count t.clients, v.count, ground (arith, active_count-le t.clients, v.size)))
