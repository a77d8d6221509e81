-- ===== src/Server/Connection.antt =====
-- `handle_new_connection` of 07/server.c.
use mathlib.Core.Option.{get_or}
use eltex_modul.Common.{
  ℕ, Bool, true, not, Option, none, some, List, [], ◌∷◌, ◌++◌, if◌then◌else◌, ltb, length, set,
  drop,
}
use eltex_modul.Common.Int.{ℤ, pos, ◌+ℤ◌, ltb_ℤ, is_negative}
use eltex_modul.Common.Text.{Bytes, utf8, c_str, starts_with, snprintf, is_space, skip_space, span}
use eltex_modul.Server.{
  Client, Server, Effect, max_clients, send, close, epoll_add, set_nonblock, find_free_slot,
  broadcast_message,
}

-- What the kernel answers: `accept`, whether `epoll_ctl` succeeds, `recv`, and the old contents of
-- the variable `name`.
pub record Arrival : Type 0 where
  pub accepted : ℤ
  pub watched : Bool
  pub packet : Option Bytes
  pub junk : Bytes

abbrev pub full_msg : Bytes
full_msg = utf8 "Сервер переполнен. Попробуйте позже."

abbrev pub name_size : ℕ
name_size = 32

abbrev pub not_space : ℕ → Bool
not_space c = not (is_space c)

unfoldable pub word_in : Bytes → Option Bytes
word_in [] = none
word_in (c ∷ cs) = some (c ∷ cs)

-- `%s` of sscanf: the bytes up to the next white space; `none` if there are none.
unfoldable pub scan_word : Bytes → Option Bytes
unfolding span skip_space word_in
scan_word s = word_in (span not_space (length s) (skip_space s)).0

unfoldable pub join_msg : Bytes → Bytes
join_msg name = snprintf 256 (name ++ utf8 " присоединился к чату")

abbrev pub newcomer : ℤ → Bytes → Client
newcomer fd name = record { fd = fd; name = name; active = true }

-- The state with one client more.
abbrev pub with_client : Server → List Client → Server
with_client s cs = record s { clients = cs; client_count = s.client_count +ℤ pos 1 }

-- The slot is filled and the others are told. `none`: the name overflows `name[32]`.
unfoldable pub register : Server → ℤ → ℕ → Bytes → Option (Server × List Effect)
unfolding join_msg
register s fd slot name =
    let s' = with_client s (set s.clients slot (newcomer fd name)) in
    if ltb (length name) name_size then some (s', broadcast_message s' fd (join_msg name)) else none

-- What follows the first packet of the connection.
unfoldable pub greet : Server → ℤ → ℕ → Bytes → Bytes → Option (Server × List Effect)
unfolding register scan_word
greet s fd slot text junk =
    if starts_with (utf8 "INIT:") text
    then register s fd slot (get_or (scan_word (drop 5 text)) junk)
    else some (s, close fd ∷ [])

unfoldable pub first_packet : Server → ℤ → ℕ → Option Bytes → Bytes → Option (Server × List Effect)
unfolding greet
first_packet s fd slot packet junk = elim packet [
  | none ↦ some (s, close fd ∷ [])
  | some [] ↦ some (s, close fd ∷ [])
  | some (b ∷ bs) ↦ greet s fd slot (c_str (b ∷ bs)) junk
]

-- The effects before those of the result.
unfoldable pub after : List Effect → Option (Server × List Effect) → Option (Server × List Effect)
after before none = none
after before (some (s, effects)) = some (s, before ++ effects)

-- The new descriptor becomes non-blocking and is watched.
abbrev pub watching : ℤ → List Effect
watching fd = set_nonblock fd ∷ epoll_add fd ∷ []

-- A connection for which there is a slot: it is watched before its first packet is read.
unfoldable pub admit : Server → ℕ → Arrival → Option (Server × List Effect)
unfolding first_packet after
admit s slot a = after (watching a.accepted) (
    if a.watched
    then first_packet s a.accepted slot a.packet a.junk
    else some (s, close a.accepted ∷ []))

-- `none` is the overflow of the local buffer `name`, which has no defined result.
unfoldable pub handle_new_connection : Server → Arrival → Option (Server × List Effect)
unfolding admit
handle_new_connection s a =
    if is_negative a.accepted
    then some (s, [])
    else if not (ltb_ℤ s.client_count (pos max_clients))
    then some (s, send a.accepted full_msg ∷ close a.accepted ∷ [])
    else elim (find_free_slot s) [
      | none ↦ some (s, close a.accepted ∷ [])
      | some slot ↦ admit s slot a
    ]
