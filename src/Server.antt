-- ===== src/Server.antt =====
-- The TCP chat server of 07/server.c: the client table and the functions on it.
--
-- The table `clients`, the counter `client_count` and the descriptor `server_fd` are the state. A
-- descriptor and the counter are C ints, `active` is a flag. What the kernel answers is an argument
-- of the handler that asks: the descriptor from `accept`, whether `epoll_ctl` succeeds, and the bytes
-- from `recv`. What the code does to the outside is the list of `Effect`s, in order; what it prints
-- on its own console is left out. The result of `send` is ignored by the code, so it is no argument.
pub mod Admission
pub mod Broadcast
pub mod Connection
pub mod File
pub mod Inv
pub mod Join
pub mod Leave
pub mod Loop
pub mod Message
pub mod Preserve
pub mod Reach
pub mod Relay
pub mod Settle
pub mod Slots
pub mod Start
mod Tests
use eltex_modul.Common.{
  ℕ, zero, suc, ◌+◌, ◌-◌, ◌≡◌, Bool, true, false, not, ◌&&◌, Option, none, some, List, [], ◌∷◌,
  ◌++◌, if◌then◌else◌, ltb, length, replicate, get_elem?, set,
}
use eltex_modul.Common.Int.{ℤ, pos, negsuc, ◌+ℤ◌, ◌-ℤ◌, ltb_ℤ, ◌==ℤ◌}
use eltex_modul.Common.Text.{Bytes}

abbrev pub max_clients : ℕ
max_clients = 30

pub record Client : Type 0 where
  pub fd : ℤ
  pub name : Bytes
  pub active : Bool

pub record Server : Type 0 where
  pub clients : List Client
  pub client_count : ℤ
  pub server_fd : ℤ

pub data Effect : Type 0 where
  send : ℤ → Bytes → Effect
  epoll_add : ℤ → Effect
  epoll_del : ℤ → Effect
  set_nonblock : ℤ → Effect
  close : ℤ → Effect

abbrev pub empty_client : Client
empty_client = record { fd = negsuc 0; name = []; active = false }

-- The body of the loop of `init_clients`, over all the slots.
unfoldable pub init_clients : Server → Server
init_clients s = record s { clients = replicate max_clients empty_client }

unfoldable pub free_slot_from : ℕ → List Client → Option ℕ
free_slot_from i [] = none
free_slot_from i (c ∷ cs) = if not c.active then some i else free_slot_from (suc i) cs

-- The index of the first slot that is not active; `none` is the -1 of the code.
unfoldable pub find_free_slot : Server → Option ℕ
unfolding free_slot_from
find_free_slot s = free_slot_from 0 s.clients

unfoldable pub find_in : ℤ → List Client → Option Client
find_in fd [] = none
find_in fd (c ∷ cs) = if c.active && (c.fd ==ℤ fd) then some c else find_in fd cs

unfoldable pub find_client_by_fd : Server → ℤ → Option Client
unfolding find_in
find_client_by_fd s fd = find_in fd s.clients

-- The loop that sends to each active client but the sender; `broadcast_file` repeats it for data.
unfoldable pub send_others : ℤ → Bytes → List Client → List Effect
send_others sender_fd message [] = []
send_others sender_fd message (c ∷ cs) =
    if c.active && not (c.fd ==ℤ sender_fd)
    then send c.fd message ∷ send_others sender_fd message cs
    else send_others sender_fd message cs

-- `message` is a C string, so `strlen` gives its length.
unfoldable pub broadcast_message : Server → ℤ → Bytes → List Effect
unfolding send_others
broadcast_message s sender_fd message = send_others sender_fd message s.clients
