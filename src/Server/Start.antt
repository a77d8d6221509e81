-- ===== src/Server/Start.antt =====
-- main of 07/server.c: the sockets, the event loop and the end.
use eltex_modul.Common.{
  ℕ, ◌≡◌, ◌≤◌, inl, inr, Bool, true, not, Option, none, some, List, [], ◌∷◌, if◌then◌else◌,
  Option-cases, arith,
}
use eltex_modul.Common.Handles.{Event as Trace, opened, closed}
use eltex_modul.Common.Int.{ℤ, pos}
use eltex_modul.Server.{Server, Effect, max_clients, init_clients}
use eltex_modul.Server.Loop.{Event, dispatch, dispatch_all, Wait, failed, ready, serve}
use eltex_modul.Server.Inv.{Inv, active_count}
use eltex_modul.Server.Admission.{Keeps, after-Keeps}
use eltex_modul.Server.Reach.{Honest, dispatch-Keeps, init_clients-Inv, active_count-le}

-- What socket, bind, listen, epoll_create1 and epoll_ctl answer: `none` is an error.
pub record Answers : Type 0 where
  pub socket : Option ℤ
  pub binds : Bool
  pub listens : Bool
  pub has_epoll : Bool
  pub watches : Bool

pub data Handle : Type 0 where
  server_fd : Handle
  epoll_fd : Handle

-- exit(1); the overflow of a handler; or the end of main, with what the handlers have done.
pub data Outcome : Type 0 where
  exited : List (Trace Handle) → Outcome
  crashed : Outcome
  returned : List (Trace Handle) → Server → List Effect → Outcome

-- The loop and what follows it: epoll_fd is not closed.
abbrev pub ended : Option (Server × List Effect) → Outcome
ended none = crashed
ended (some r) = returned (opened server_fd ∷ opened epoll_fd ∷ closed server_fd ∷ []) r.0 r.1

unfoldable pub listening : Answers → Server → List Wait → Outcome
unfolding serve
listening a s waits =
    if not a.binds
    then exited (opened server_fd ∷ [])
    else if not a.listens
    then exited (opened server_fd ∷ [])
    else if not a.has_epoll
    then exited (opened server_fd ∷ [])
    else if not a.watches
    then exited (opened server_fd ∷ opened epoll_fd ∷ [])
    else ended (serve s waits)

abbrev pub with_socket : Answers → Server → List Wait → Option ℤ → Outcome
with_socket a s waits none = exited []
with_socket a s waits (some fd) = listening a (record s { server_fd = fd }) waits

-- The globals before main: the table is filled by init_clients, the counter is 0.
unfoldable pub main : Answers → Server → List Wait → Outcome
unfolding listening init_clients
main a s waits = with_socket a (init_clients s) waits a.socket

-- `accept` returns no descriptor that is in use, through all the events of a call of epoll_wait, and
-- through all the calls.
abbrev pub AllHonest : Server → List Event → Type 0
AllHonest s [] = Unit {0}
AllHonest s (e ∷ es) =
    Honest s e
    × ((t : Server) (effects : List Effect) → dispatch s e ≡ some (t, effects) → AllHonest t es)

abbrev pub HonestRun : Server → List Wait → Type 0
HonestRun s [] = Unit {0}
HonestRun s (failed ∷ ws) = Unit {0}
HonestRun s (ready es ∷ ws) =
    AllHonest s es
    × ((t : Server) (effects : List Effect)
        → dispatch_all s es ≡ some (t, effects)
        → HonestRun t ws)

dispatch_all-Keeps :
    (s : Server) (es : List Event) → Inv s → AllHonest s es → Keeps (dispatch_all s es)
unfolding dispatch_all
dispatch_all-Keeps s [] v h = v
dispatch_all-Keeps s (e ∷ es) v h = elim (Option-cases (dispatch s e)) [
  | inl broken ↦ rw (broken, dispatch_all) tt
  | inr (r, went) ↦
      let w : Inv r.0 = rw went at (dispatch-Keeps s e v h.0) in
      rw (went, dispatch_all)
        (after-Keeps r.1 (dispatch_all r.0 es) (dispatch_all-Keeps r.0 es w (h.1 r.0 r.1 went)))
]

serve-Keeps : (s : Server) (ws : List Wait) → Inv s → HonestRun s ws → Keeps (serve s ws)
unfolding serve
serve-Keeps s [] v h = v
serve-Keeps s (failed ∷ ws) v h = v
serve-Keeps s (ready es ∷ ws) v h = elim (Option-cases (dispatch_all s es)) [
  | inl broken ↦ rw (broken, serve) tt
  | inr (r, went) ↦
      let w : Inv r.0 = rw went at (dispatch_all-Keeps s es v h.0) in
      rw (went, serve) (after-Keeps r.1 (serve r.0 ws) (serve-Keeps r.0 ws w (h.1 r.0 r.1 went)))
]

-- The table that main leaves; the overflow of a handler ends a run before. exit does not come up.
abbrev pub Counted : Outcome → Type 0
Counted (exited events) = ⊥
Counted crashed = Unit {0}
Counted (returned events t effects) =
    Inv t × ((n : ℕ) × (t.client_count ≡ pos n) × (n ≤ max_clients))

ended-Counted : (r : Option (Server × List Effect)) → Keeps r → Counted (ended r)
ended-Counted none v = tt
ended-Counted (some (t, effects)) v =
    (v, (active_count t.clients, v.count, ground (arith, active_count-le t.clients, v.size)))

-- The calls that set the server up work.
pub record Works (a : Answers) (fd : ℤ) : Type 0 where
  pub socket : a.socket ≡ some fd
  pub binds : a.binds ≡ true
  pub listens : a.listens ≡ true
  pub epoll : a.has_epoll ≡ true
  pub watches : a.watches ≡ true

-- When the calls that set the server up work, the counter is 0 before, and `accept` never returns a
-- descriptor that is in use: however many calls of epoll_wait come back with whatever events, main
-- ends its loop, unless a handler overflows its array; and then the table has 30 slots, the counter
-- is the number of active slots and lies between 0 and 30, a slot has a descriptor exactly when it
-- is active, and no descriptor is in two active slots.
pub main-Counted :
    (a : Answers) (fd : ℤ) (s : Server) (waits : List Wait)
    → Works a fd
    → s.client_count ≡ pos 0
    → HonestRun (record (init_clients s) { server_fd = fd }) waits
    → Counted (main a s waits)
unfolding main listening
main-Counted a fd s waits w zero h =
    let v = init_clients-Inv s zero in
    let v' : Inv (record (init_clients s) { server_fd = fd }) = record {
      size = v.size;
      count = v.count;
      table = v.table;
    } in
    rw w.socket (
      rw (w.binds, w.listens, w.epoll, w.watches)
        (ended-Counted (serve (record (init_clients s) { server_fd = fd }) waits)
          (serve-Keeps (record (init_clients s) { server_fd = fd }) waits v' h)))
