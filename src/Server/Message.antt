-- ===== src/Server/Message.antt =====
-- `handle_client_message` of 07/server.c.
use mathlib.Core.Option.{get_or}
use eltex_modul.Common.{
  ℕ, ◌+◌, Bool, false, not, ◌&&◌, Option, none, some, List, [], ◌∷◌, ◌++◌, if◌then◌else◌, drop,
}
use eltex_modul.Common.Int.{ℤ, pos, negsuc, ◌-ℤ◌, ◌==ℤ◌}
use eltex_modul.Common.Text.{Bytes, utf8, c_str, starts_with, str_eq, snprintf}
use eltex_modul.FileHeader.{format_header, scan_header}
use eltex_modul.Server.{
  Client, Server, Effect, epoll_del, close, find_client_by_fd, broadcast_message,
}

-- MESSAGE_SIZE.
abbrev pub message_size : ℕ
message_size = 4096 + 64

-- What the uninitialised variables `filename` and `file_size` happen to hold.
pub record Junk : Type 0 where
  pub name : Bytes
  pub size : ℤ

-- The slot that a loop stops at, and the table with that slot given up.
unfoldable pub take_slot : (Client → Bool) → List Client → Option (Client × List Client)
take_slot test [] = none
take_slot test (c ∷ cs) =
    if test c
    then some (c, record c { fd = negsuc 0; active = false } ∷ cs)
    else elim (take_slot test cs) [ none ↦ none | some (d, ds) ↦ some (d, c ∷ ds) ]

abbrev pub holds : ℤ → Client → Bool
holds fd c = c.fd ==ℤ fd && c.active

abbrev pub has_fd : ℤ → Client → Bool
has_fd fd c = c.fd ==ℤ fd

unfoldable pub leave_msg : Bytes → Bytes
leave_msg name = snprintf 256 (utf8 "LEAVE:" ++ name)

-- The state after a slot is given up.
abbrev pub without : Server → List Client → Server
without s cs = record s { clients = cs; client_count = s.client_count -ℤ pos 1 }

-- The branch for `n <= 0`: the peer is gone.
unfoldable pub lost_client : Server → ℤ → Server × List Effect
unfolding take_slot leave_msg
lost_client s client_fd = elim (take_slot (holds client_fd) s.clients) [
  | none ↦ (s, [])
  | some (c, cs) ↦ (
    without s cs,
    broadcast_message s client_fd (leave_msg c.name) ++ epoll_del client_fd ∷ close client_fd ∷ [],
  )
]

-- The branch for "CLOSE:"; `client` is the slot that `find_client_by_fd` gave.
unfoldable pub close_client : Server → ℤ → Client → Server × List Effect
unfolding take_slot leave_msg
close_client s client_fd client =
    let left = broadcast_message s client_fd (leave_msg client.name) in
    elim (take_slot (has_fd client_fd) s.clients) [
      | none ↦ (s, left ++ close client_fd ∷ [])
      | some (c, cs) ↦ (without s cs, left ++ epoll_del client_fd ∷ close client_fd ∷ [])
    ]

-- The header that is passed on: what sscanf did not assign is what the variables held.
unfoldable pub relay_header : Bytes → Junk → Bytes
relay_header text junk =
    let (name, size) = scan_header text in
    snprintf message_size (format_header (get_or name junk.name) (get_or size junk.size))

unfoldable pub relay_message : Bytes → Bytes → Bytes
relay_message name text =
    snprintf message_size (utf8 "MES:[" ++ (name ++ (utf8 "] " ++ drop 4 text)))

-- Which branch of the chain of tests a text takes, in the order of the code.
pub data Request : Type 0 where
  closing file_start file_end mes other : Request

unfoldable pub classify : Bytes → Request
classify text =
    if starts_with (utf8 "CLOSE:") text
    then closing
    else if starts_with (utf8 "FILE_START:") text
    then file_start
    else if str_eq text (utf8 "FILE_END")
    then file_end
    else if starts_with (utf8 "MES:") text
    then mes
    else other

-- The bodies of the branches.
unfoldable pub perform : Server → ℤ → Client → Bytes → Junk → Request → Server × List Effect
unfolding close_client relay_header relay_message
perform s client_fd client text junk closing = close_client s client_fd client
perform s client_fd client text junk file_start =
    (s, broadcast_message s client_fd (relay_header text junk))
perform s client_fd client text junk file_end = (s, broadcast_message s client_fd (utf8 "FILE_END"))
perform s client_fd client text junk mes =
    (s, broadcast_message s client_fd (relay_message client.name text))
perform s client_fd client text junk other = (s, broadcast_message s client_fd text)

unfoldable pub received : Server → ℤ → Bytes → Junk → Server × List Effect
unfolding perform classify
received s client_fd text junk = elim (find_client_by_fd s client_fd) [
  | none ↦ (s, [])
  | some c ↦ if not c.active then (s, []) else perform s client_fd c text junk (classify text)
]

-- `packet` is the result of `recv`: `none` for -1, no byte for a closed connection.
unfoldable pub handle_client_message :
    Server → ℤ → (packet : Option Bytes) → Junk → Server × List Effect
unfolding received lost_client
handle_client_message s client_fd packet junk = elim packet [
  | none ↦ lost_client s client_fd
  | some [] ↦ lost_client s client_fd
  | some (b ∷ bs) ↦ received s client_fd (c_str (b ∷ bs)) junk
]
