-- ===== src/Server/Broadcast.antt =====
-- Who gets what a broadcast of 07/server.c sends.
use eltex_modul.Common.{◌≡◌, refl, not, ◌&&◌, List, [], ◌∷◌, ◌++◌, if◌then◌else◌, arith}
use eltex_modul.Common.Int.{ℤ, ◌==ℤ◌}
use eltex_modul.Common.Text.{Bytes}
use eltex_modul.Server.{
  Client, Server, Effect, send, close, epoll_add, epoll_del, set_nonblock, find_in,
  find_client_by_fd, send_others, broadcast_message,
}
use eltex_modul.Server.Inv.{is_some, Table, Inv, ==ℤ→eq, ==ℤ_refl}

-- The messages that the descriptor `fd` is sent, in order.
unfoldable pub inbox : ℤ → List Effect → List Bytes
inbox fd [] = []
inbox fd (send gd m ∷ es) = if gd ==ℤ fd then m ∷ inbox fd es else inbox fd es
inbox fd (epoll_add gd ∷ es) = inbox fd es
inbox fd (epoll_del gd ∷ es) = inbox fd es
inbox fd (set_nonblock gd ∷ es) = inbox fd es
inbox fd (close gd ∷ es) = inbox fd es

pub inbox-append : (fd : ℤ) (es fs : List Effect) → inbox fd (es ++ fs) ≡ inbox fd es ++ inbox fd fs
unfolding inbox
inbox-append fd [] fs = refl
inbox-append fd (send gd m ∷ es) fs = ground (arith, inbox-append fd es fs)
inbox-append fd (epoll_add gd ∷ es) fs = inbox-append fd es fs
inbox-append fd (epoll_del gd ∷ es) fs = inbox-append fd es fs
inbox-append fd (set_nonblock gd ∷ es) fs = inbox-append fd es fs
inbox-append fd (close gd ∷ es) fs = inbox-append fd es fs

-- What a broadcast from `sender` brings to `fd`, said without the table's order.
abbrev pub delivery : Server → ℤ → Bytes → ℤ → List Bytes
delivery s sender m fd =
    if is_some (find_client_by_fd s fd) && not (fd ==ℤ sender) then m ∷ [] else []

pub inbox-send_others :
    (sender : ℤ) (m : Bytes) (fd : ℤ) (cs : List Client)
    → Table cs
    → inbox fd (send_others sender m cs)
      ≡ (if is_some (find_in fd cs) && not (fd ==ℤ sender) then m ∷ [] else [])
unfolding inbox send_others find_in
inbox-send_others sender m fd [] t = refl
inbox-send_others sender m fd (c ∷ cs) t =
    ground (arith, ==ℤ→eq c.fd fd, ==ℤ_refl c.fd, inbox-send_others sender m fd cs t.2)

-- A broadcast reaches every active client but the sender, each once, and nobody else.
pub inbox-broadcast :
    (s : Server) (sender : ℤ) (m : Bytes) (fd : ℤ)
    → Inv s
    → inbox fd (broadcast_message s sender m) ≡ delivery s sender m fd
unfolding broadcast_message find_client_by_fd
inbox-broadcast s sender m fd v = inbox-send_others sender m fd s.clients v.table
