-- ===== src/Server/Loop.antt =====
-- The event loop in `main` of 07/server.c.
use eltex_modul.Common.{Option, none, some, List, [], ◌∷◌, if◌then◌else◌}
use eltex_modul.Common.Int.{ℤ, ◌==ℤ◌}
use eltex_modul.Server.{Server, Effect, find_client_by_fd}
use eltex_modul.Server.Message.{Junk, handle_client_message}
use eltex_modul.Server.Connection.{Arrival, after, handle_new_connection}
use eltex_modul.Common.Text.{Bytes}

-- A ready descriptor, with what the kernel answers if its handler asks.
pub record Event : Type 0 where
  pub fd : ℤ
  pub arrival : Arrival
  pub packet : Option Bytes
  pub junk : Junk

-- The body of the loop over the ready descriptors.
unfoldable pub dispatch : Server → Event → Option (Server × List Effect)
dispatch s e =
    if e.fd ==ℤ s.server_fd
    then handle_new_connection s e.arrival
    else elim (find_client_by_fd s e.fd) [
      | none ↦ some (s, [])
      | some c ↦
          if c.active then some (handle_client_message s e.fd e.packet e.junk) else some (s, [])
    ]

-- The events of one call of `epoll_wait` in turn; `none` is the overflow of a handler.
unfoldable pub dispatch_all : Server → List Event → Option (Server × List Effect)
unfolding after
dispatch_all s [] = some (s, [])
dispatch_all s (e ∷ es) = elim (dispatch s e) [
  | none ↦ none
  | some (s', effects) ↦ after effects (dispatch_all s' es)
]

-- What `epoll_wait` returns.
pub data Wait : Type 0 where
  failed : Wait
  ready : List Event → Wait

-- The loop: it ends when `epoll_wait` fails, as it does on SIGINT, or where the list ends.
unfoldable pub serve : Server → List Wait → Option (Server × List Effect)
unfolding after
serve s [] = some (s, [])
serve s (failed ∷ ws) = some (s, [])
serve s (ready es ∷ ws) = elim (dispatch_all s es) [
  | none ↦ none
  | some (s', effects) ↦ after effects (serve s' ws)
]
