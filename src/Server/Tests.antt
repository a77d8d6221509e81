-- ===== src/Server/Tests.antt =====
-- Runs of the chat server, and its theorems at concrete tables.
use eltex_modul.Common.{
  ◌≡◌, ◌≤◌, ◌↔◌, refl, true, none, some, List, [], ◌∷◌, arith, replicate, length,
}
use eltex_modul.Common.Int.{pos, negsuc}
use eltex_modul.Common.Decimal.{print_ℤ}
use eltex_modul.Common.Text.{Bytes, utf8, c_str}
use eltex_modul.FileHeader.{format_header, scan_header, IsFileName}
use eltex_modul.Server.{
  Client, Server, send, close, epoll_add, set_nonblock, find_in, empty_client, find_client_by_fd,
  find_free_slot, broadcast_message, init_clients,
}
use eltex_modul.Server.Message.{Junk, handle_client_message, classify}
use eltex_modul.Server.Connection.{handle_new_connection, name_size, newcomer}
use eltex_modul.Server.Loop.{Event}
use eltex_modul.Server.Inv.{Inv}
use eltex_modul.Server.Leave.{Departure, lost-Departure}
use eltex_modul.Server.Join.{IsName, greeting, greeting-overflow}
use eltex_modul.Server.Settle.{Settled, handle_new_connection-Settled}
use eltex_modul.Common.{true}
use eltex_modul.Server.Loop.{Wait, failed, ready}
use eltex_modul.Server.Start.{Answers, Counted, main, main-Counted}

abbrev alice : Client
alice = newcomer (pos 5) (utf8 "alice")

abbrev bob : Client
bob = newcomer (pos 6) (utf8 "bob")

abbrev start : Server
start = record { clients = []; client_count = pos 0; server_fd = pos 3 }

abbrev room : Server
room = record {
  clients = alice ∷ bob ∷ replicate 28 empty_client;
  client_count = pos 2;
  server_fd = pos 3;
}

abbrev junk : Junk
junk = record { name = utf8 "??"; size = negsuc 6 }

room-Inv : Inv room
unfolding find_in
room-Inv = record { size = refl; count = refl; table = ground arith }

alice_found : find_client_by_fd room (pos 5) ≡ some alice
unfolding find_client_by_fd
alice_found = refl

carol_fresh : find_client_by_fd room (pos 7) ≡ none
unfolding find_client_by_fd
carol_fresh = refl

carol-IsName : IsName (utf8 "carol")
carol-IsName = record { full = omega arith; solid = ground arith; text = ground arith }

-- Alice speaks, and only Bob hears her.
says :
    handle_client_message room (pos 5) (some (utf8 "MES:hi")) junk
    ≡ (room, send (pos 6) (utf8 "MES:[alice] hi") ∷ [])
unfolding handle_client_message find_client_by_fd classify broadcast_message c_str
says = refl

-- A header that sscanf cannot read is passed on with what the variables happened to hold.
bad_header :
    handle_client_message room (pos 5) (some (utf8 "FILE_START:")) junk
    ≡ (room, send (pos 6) (utf8 "FILE_START:??:-7") ∷ [])
unfolding handle_client_message find_client_by_fd classify broadcast_message c_str scan_header
    format_header print_ℤ
bad_header = refl

-- A client whose greeting has not arrived when it is accepted is sent away.
too_early :
    handle_new_connection room
      (record { accepted = pos 7; watched = true; packet = none; junk = [] })
    ≡ some (room, set_nonblock (pos 7) ∷ epoll_add (pos 7) ∷ close (pos 7) ∷ [])
unfolding handle_new_connection find_free_slot
too_early = refl

abbrev carol_event : Event
carol_event = record {
  fd = pos 3;
  arrival = greeting 7 (utf8 "carol") [];
  packet = none;
  junk = junk;
}

lost-Departure_example : Departure room (pos 5) alice (handle_client_message room (pos 5) none junk)
lost-Departure_example = lost-Departure room 5 alice junk room-Inv alice_found

greeting-overflow_example :
    (handle_new_connection room (greeting 7 (utf8 "carol") []) ≡ none)
    ↔ (name_size ≤ length (utf8 "carol"))
greeting-overflow_example = greeting-overflow room 7 (utf8 "carol") [] room-Inv refl carol-IsName

handle_new_connection-Settled_example :
    Settled room (pos 7) (handle_new_connection room (greeting 7 (utf8 "carol") []))
handle_new_connection-Settled_example =
    handle_new_connection-Settled room 7 (greeting 7 (utf8 "carol") []) refl room-Inv carol_fresh

abbrev file_name : Bytes
file_name = utf8 "notes.txt"

file_name-IsFileName : IsFileName file_name
file_name-IsFileName = record {
  full = omega arith;
  short = omega arith;
  plain = ground arith;
  text = ground arith;
}

abbrev piece : Bytes
piece = 7 ∷ 0 ∷ 8 ∷ []

abbrev obliging : Answers
obliging = record {
  socket = some (pos 3);
  binds = true;
  listens = true;
  has_epoll = true;
  watches = true;
}

-- Carol joins, then SIGINT ends the wait.
abbrev waits : List Wait
waits = ready (carol_event ∷ []) ∷ failed ∷ []

Counted_example : Counted (main obliging start waits)
unfolding init_clients find_client_by_fd
Counted_example =
    main-Counted obliging (pos 3) start waits
      (record { socket = refl; binds = refl; listens = refl; epoll = refl; watches = refl }) refl
      ((λ h. refl, λ t effects e. tt), λ t effects e. tt)
