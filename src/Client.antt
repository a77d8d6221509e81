-- ===== src/Client.antt =====
-- The TCP chat client of 07/client.c.
--
-- What the program does to the outside is a list of effects: what it sends to the server, what it
-- writes to files, and what it shows to the user. What the server sends is a list of the results of
-- `recv`: `none` for -1, no byte for a closed connection. The list ends where nothing more comes.

pub mod Console
pub mod Delivery
pub mod Echo
pub mod Session
pub mod Start
mod Tests
pub mod Transfer
use mathlib.Core.Option.{get_or}
use eltex_modul.Common.{
  ℕ, zero, suc, ◌+◌, ◌-◌, ◌≡◌, Bool, true, false, not, Option, none, some, List, [], ◌∷◌, ◌++◌,
  if◌then◌else◌, ltb, ◌==◌, length, take, drop,
}
use eltex_modul.Common.Int.{ℤ, pos, negsuc, ltb_ℤ, ◌+ℤ◌}
use eltex_modul.Common.Text.{Bytes, utf8, c_str, starts_with, str_eq, snprintf, span}
use eltex_modul.FileHeader.{format_header, scan_header}

pub data Effect : Type 0 where
  send : Bytes → Effect
  create : Bytes → Effect
  write : Bytes → Effect
  close : Effect
  show : Bytes → Effect

-- BUFFER_SIZE and FILE_BUFFER.
abbrev pub message_size : ℕ
message_size = 4096

abbrev pub file_buffer : ℕ
file_buffer = 8192

abbrev pub Packets : Type 0
Packets = List (Option Bytes)

abbrev prompt : Effect
prompt = show (utf8 "> ")

-- The loop of `receive_file`: the effects, and what has not been received.
unfoldable pub receive_loop : ℤ → ℤ → Packets → List Effect × Packets
receive_loop received file_size [] = ([], [])
receive_loop received file_size (none ∷ ps) =
    if ltb_ℤ received file_size then ([], ps) else ([], none ∷ ps)
receive_loop received file_size (some [] ∷ ps) =
    if ltb_ℤ received file_size then ([], ps) else ([], some [] ∷ ps)
receive_loop received file_size (some (b ∷ bs) ∷ ps) =
    let (es, rest) = receive_loop (received +ℤ pos (length (b ∷ bs))) file_size ps in
    if ltb_ℤ received file_size then (write (b ∷ bs) ∷ es, rest) else ([], some (b ∷ bs) ∷ ps)

unfoldable pub received_name : Bytes → Bytes
received_name filename = snprintf 256 (utf8 "received_" ++ filename)

-- `opened`: whether `open` succeeds.
unfoldable pub receive_file : Bool → Bytes → ℤ → Packets → List Effect × Packets
unfolding receive_loop received_name
receive_file opened filename file_size ps =
    if opened
    then (let (es, rest) = receive_loop (pos 0) file_size ps in
        (
          create (received_name filename)
              ∷ (es
                  ++ close
                    ∷ show (utf8 "\nФайл сохранен как: " ++ (received_name filename ++ utf8 "\n"))
                    ∷ []),
          rest,
        ))
    else ([], ps)

-- What the uninitialised variables `filename` and `file_size` happen to hold.
pub record Junk : Type 0 where
  pub name : Bytes
  pub size : ℤ

pub record Outcome : Type 0 where
  pub running : Bool
  pub effects : List Effect
  pub rest : Packets

abbrev shown : Bytes → Packets → Outcome
shown text ps = record { running = true; effects = show text ∷ prompt ∷ []; rest = ps }

-- The branches on the text of a packet.
unfoldable pub show_message : Bool → Bytes → Junk → Packets → Outcome
unfolding receive_file
show_message opened text junk ps =
    if starts_with (utf8 "JOIN:") text
    then shown (utf8 "\r*** " ++ (drop 5 text ++ utf8 " присоединился к чату ***\n")) ps
    else if starts_with (utf8 "LEAVE:") text
    then shown (utf8 "\r*** " ++ (drop 6 text ++ utf8 " покинул чат ***\n")) ps
    else if starts_with (utf8 "FILE_START:") text
    then (let (name, size) = scan_header text in
        let (es, rest) = receive_file opened (get_or name junk.name) (get_or size junk.size) ps in
        record { running = true; effects = es ++ prompt ∷ []; rest = rest })
    else if str_eq text (utf8 "FILE_END")
    then shown (utf8 "\nПолучение файла завершено\n") ps
    else if starts_with (utf8 "MES:") text
    then shown (utf8 "\r" ++ (drop 4 text ++ utf8 "\n")) ps
    else shown (utf8 "\r" ++ (text ++ utf8 "\n")) ps

abbrev lost : Packets → Outcome
lost ps = record {
  running = false;
  effects = show (utf8 "\nСоединение с сервером потеряно.\n") ∷ [];
  rest = ps;
}

unfoldable pub handle_server_message : Bool → Option Bytes → Junk → Packets → Outcome
unfolding show_message
handle_server_message opened none junk ps = lost ps
handle_server_message opened (some []) junk ps = lost ps
handle_server_message opened (some (b ∷ bs)) junk ps = show_message opened (c_str (b ∷ bs)) junk ps

-- The blocks that `fread` gives, on fuel: `length bytes` rounds are enough.
unfoldable pub blocks : ℕ → Bytes → List Bytes
blocks zero bytes = []
blocks (suc fuel) [] = []
blocks (suc fuel) (b ∷ bs) =
    let more = blocks fuel (drop file_buffer (b ∷ bs)) in take file_buffer (b ∷ bs) ∷ more

unfoldable pub send_all : List Bytes → List Effect
send_all [] = []
send_all (b ∷ bs) = send b ∷ send_all bs

-- `file`: what `fopen` finds. The progress that is printed is left out.
unfoldable pub send_file : Bytes → Option Bytes → List Effect
unfolding blocks send_all
send_file filename none =
    show (utf8 "Ошибка: не могу открыть файл " ++ (filename ++ utf8 "\n")) ∷ []
send_file filename (some bytes) =
    send (snprintf 256 (format_header filename (pos (length bytes))))
    ∷ (send_all (blocks (length bytes) bytes) ++ send (utf8 "FILE_END") ∷ [])

abbrev pub not_blank : ℕ → Bool
not_blank c = not (c == 32)

-- `while (*s == ' ') s++`.
unfoldable pub skip_blanks : Bytes → Bytes
skip_blanks [] = []
skip_blanks (c ∷ cs) = if c == 32 then skip_blanks cs else c ∷ cs

abbrev pub command_size : ℕ
command_size = 30

-- The command "/file": `name` is what follows the word.
unfoldable pub file_command : Bytes → Option Bytes → List Effect
unfolding send_file
file_command name file =
    if ltb 0 (length name)
    then show (utf8 "Отправка файла: " ++ (name ++ utf8 "\n")) ∷ send_file name file
    else show (utf8 "Использование: /file <имя_файла>\n") ∷ []

-- `none`: the first word overflows the array `command[30]`.
unfoldable pub handle_console_command : Bytes → Option Bytes → Option (List Effect)
unfolding span skip_blanks file_command
handle_console_command buffer file =
    let line = skip_blanks buffer in
    let (word, behind) = span not_blank (length line) line in
    if ltb (length word) command_size
    then some (
        (if str_eq word (utf8 "/file")
          then file_command (skip_blanks behind) file
          else send (snprintf message_size (utf8 "MES:" ++ line)) ∷ [])
        ++ prompt ∷ [])
    else none
