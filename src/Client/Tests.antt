-- ===== src/Client/Tests.antt =====
-- Runs of the chat client, and its theorems at concrete lines and files.
use eltex_modul.Common.{◌≡◌, refl, true, none, some, [], ◌∷◌, ◌++◌, arith, replicate}
use eltex_modul.Common.Int.{pos, ◌+ℤ◌}
use eltex_modul.Common.Text.{Bytes, utf8}
use eltex_modul.Client.{
  send, show, write, create, close, Junk, receive_file, handle_console_command,
  handle_server_message,
}
use eltex_modul.Client.Echo.{IsSaid, typed, said_again, session-echo}
use eltex_modul.Client.Session.{session}
use eltex_modul.Client.Console.{IsWord, say-show}
use eltex_modul.Server.{Server, empty_client, find_in, find_client_by_fd, broadcast_message}
use eltex_modul.Server.Message
use eltex_modul.Server.Message.{handle_client_message}
use eltex_modul.Server.Connection.{newcomer}
use eltex_modul.Server.Inv.{Inv}
use eltex_modul.Common.{List}
use eltex_modul.Server.{Effect as Answer}
use eltex_modul.Server.Connection.{handle_new_connection}
use eltex_modul.Server.Join.{greeting, Joined}
use eltex_modul.Server.Leave.{Departure}
use eltex_modul.Client.Start.{Answers, main, Stay, hello, goodbye, main-stays}

abbrev room : Server
room = record {
  clients =
      newcomer (pos 5) (utf8 "alice") ∷ newcomer (pos 6) (utf8 "bob") ∷ replicate 28 empty_client;
  client_count = pos 2;
  server_fd = pos 3;
}

room-Inv : Inv room
unfolding find_in
room-Inv = record { size = refl; count = refl; table = ground arith }

alice_found : find_client_by_fd room (pos 5) ≡ some (newcomer (pos 5) (utf8 "alice"))
unfolding find_client_by_fd
alice_found = refl

well-IsWord : IsWord (utf8 "well")
well-IsWord = record { full = omega arith; solid = ground arith }

abbrev junk : Junk
junk = record { name = []; size = pos 0 }

abbrev server_junk : Message.Junk
server_junk = record { name = []; size = pos 0 }

-- The end of the file that comes in one packet with its last bytes is written into the file.
file_end_written :
    (receive_file true (utf8 "a") (pos 2) (some (utf8 "hiFILE_END") ∷ [])).0
    ≡ create (utf8 "received_a")
      ∷ write (utf8 "hiFILE_END")
      ∷ close
      ∷ show (utf8 "\nФайл сохранен как: received_a\n")
      ∷ []
unfolding receive_file ◌+ℤ◌
file_end_written = refl

say-show_example :
    (packet : Bytes) × (text : Bytes) × (handle_console_command (utf8 "  well done") none
      ≡ some (send packet ∷ show (utf8 "> ") ∷ []))
    × (handle_client_message room (pos 5) (some packet) server_junk
        ≡ (room, broadcast_message room (pos 5) text))
    × ((handle_server_message true (some text) junk []).effects
        ≡ show (utf8 "\r[alice] well done\n") ∷ show (utf8 "> ") ∷ [])
say-show_example =
    say-show 2 (utf8 "well") (some (utf8 "done")) none well-IsWord (omega arith) refl (ground arith)
      (omega arith) room 5 (newcomer (pos 5) (utf8 "alice")) server_junk room-Inv alice_found
      (ground arith) true junk []

hello-IsSaid : IsSaid (utf8 "hello") none
hello-IsSaid = record {
  solid = record { full = omega arith; solid = ground arith };
  short = omega arith;
  other = refl;
  string = ground arith;
  one_line = ground arith;
  fits = omega arith;
}

session-echo_example :
    session (utf8 "alice") [] (typed (some (utf8 "hello\n")) ∷ replicate 3 (typed none)) []
    ≡ some (
        send (utf8 "INIT:alice")
        ∷ (said_again 4 (utf8 "hello") ++ (send (utf8 "CLOSE:alice") ∷ close ∷ [])))
session-echo_example =
    session-echo (utf8 "alice") (utf8 "hello") none [] 3 [] (omega arith) hello-IsSaid

abbrev obliging : Answers
obliging = record { has_socket = true; connects = true }

carol_fresh : find_client_by_fd room (pos 7) ≡ none
unfolding find_client_by_fd
carol_fresh = refl

abbrev carol_room : Server
carol_room = record {
  clients =
      newcomer (pos 5) (utf8 "alice")
      ∷ newcomer (pos 6) (utf8 "bob")
      ∷ newcomer (pos 7) (utf8 "carol")
      ∷ replicate 27 empty_client;
  client_count = pos 3;
  server_fd = pos 3;
}

carol_room-Inv : Inv carol_room
unfolding find_in
carol_room-Inv = record { size = refl; count = refl; table = ground arith }

carol_found : find_client_by_fd carol_room (pos 7) ≡ some (newcomer (pos 7) (utf8 "carol"))
unfolding find_client_by_fd
carol_found = refl

stays_example :
    Stay (utf8 "carol") (main obliging (utf8 "carol" ∷ []) [] (typed none ∷ []) [])
    × ((greeting 7 (utf8 "carol") []).packet ≡ some (hello (utf8 "carol")))
    × ((t : Server) × (es : List Answer) × (handle_new_connection room
            (greeting 7 (utf8 "carol") [])
          ≡ some (t, es))
        × Joined room (pos 7) (utf8 "carol") t es)
    × Departure carol_room (pos 7) (newcomer (pos 7) (utf8 "carol")) (
        handle_client_message carol_room
          (pos 7)
          (some (goodbye (utf8 "carol")))
          (record { name = []; size = pos 0 }))
stays_example =
    main-stays obliging (utf8 "carol") [] [] (typed none ∷ []) [] room carol_room 7
      (newcomer (pos 7) (utf8 "carol")) [] (record { name = []; size = pos 0 }) refl refl
      (record { full = omega arith; solid = ground arith; text = ground arith }) (omega arith)
      room-Inv refl carol_fresh carol_room-Inv carol_found
