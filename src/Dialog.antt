-- ===== src/Dialog.antt =====
-- The chat of two users over two POSIX queues, 03/main.c.
--
-- Each user is a process with two threads, user_func_read_consol_write_mes and
-- user_func_read_mes_write_consol, which share the flag running. A channel is one queue with the thread
-- that writes to it, of one user, and the thread that reads from it, of the other; the dialog is two
-- channels. One action is what a thread does up to its next test of running or its next call on the
-- queue, and the actions of the four threads and the two signals come in any order. The lines that
-- a thread prints about itself are left out; main is in Dialog/Opening.
pub mod Console
pub mod Crossing
pub mod Delivery
pub mod Mails
pub mod Opening
pub mod Parting
pub mod Reader
mod Tests
pub mod Turn
pub mod Writer
use eltex_modul.Common.{
  ℕ, zero, suc, ◌+◌, ◌-◌, Bool, true, false, Option, none, some, List, [], ◌∷◌, ◌++◌, if◌then◌else◌,
  ltb, ◌==◌, length,
}
use eltex_modul.Common.Text.{Bytes, c_str, utf8, fgets}

abbrev pub buffer_size : ℕ
buffer_size = 256

abbrev pub base_messege_priority : ℕ
base_messege_priority = 1

abbrev pub max_msg_count : ℕ
max_msg_count = 10

pub record Mail : Type 0 where
  pub text : Bytes
  pub priority : ℕ

-- mq_send: behind the messages of the same or of a higher priority. mq_receive takes the first.
unfoldable pub enqueue : Mail → List Mail → List Mail
enqueue m [] = m ∷ []
enqueue m (q ∷ qs) =
    let rest = enqueue m qs in if ltb q.priority m.priority then m ∷ q ∷ qs else q ∷ rest

-- Where the two threads are: at the test of running, at the call on the queue, behind the loop with the
-- last message still to be sent, or at the end.
pub data WriterAt : Type 0 where
  testing : WriterAt
  typing : WriterAt
  parting : WriterAt
  silent : WriterAt

pub data ReaderAt : Type 0 where
  looking : ReaderAt
  receiving : ReaderAt
  deaf : ReaderAt

-- `input` is what the console of the writer has not yet given.
pub record Channel : Type 0 where
  pub input : Bytes
  pub writer : WriterAt
  pub queue : List Mail
  pub reader : ReaderAt
  pub shown : List Bytes

-- An action may wait for the queue; or it writes past an array.
pub data Moved (A : Type 0) : Type 0 where
  moved : A → Moved A
  blocked : Moved A
  overrun : Moved A

unfoldable pub read_console : Bytes → Bytes × Bytes
read_console [] = (utf8 "EOF сообщение\n", [])
read_console (c ∷ cs) = fgets (buffer_size - 1) (c ∷ cs)

-- The queues for writing are opened without O_NONBLOCK: a full one makes the writer wait.
unfoldable pub put : Mail → Channel → Moved Channel
put m h =
    if ltb (length h.queue) max_msg_count
    then moved (record h { queue = enqueue m h.queue })
    else blocked

abbrev pub line_mail : Bytes → Mail
line_mail line = record { text = c_str line; priority = base_messege_priority }

-- A line of the console; `failed` is an error of mq_send.
unfoldable pub send_line : Bool → Channel → Moved Channel
send_line failed h =
    let r = read_console h.input in
    if failed
    then moved (record h { input = r.1; writer = parting })
    else put (line_mail r.0) (record h { input = r.1; writer = testing })

abbrev pub bytes_at : (ℕ → ℕ) → ℕ → Bytes
bytes_at behind zero = []
bytes_at behind (suc n) = behind n ∷ bytes_at behind n

abbrev pub farewell : Bytes
farewell = utf8 "Другой пользователь закончил диалог\n"

-- The last message is BUFFER_SIZE bytes long, whatever the text: `behind` is what lies behind it in memory.
abbrev pub goodbye : (ℕ → ℕ) → Mail
goodbye behind = record {
  text = farewell ++ bytes_at behind (buffer_size - length farewell);
  priority = base_messege_priority + 1;
}

unfoldable pub say_goodbye : (ℕ → ℕ) → Bool → Channel → Moved Channel
say_goodbye behind failed h =
    if failed
    then moved (record h { writer = silent })
    else put (goodbye behind) (record h { writer = silent })

abbrev pub writer_at : (ℕ → ℕ) → Bool → Bool → Channel → WriterAt → Moved Channel
writer_at behind running failed h testing =
    moved (record h { writer = if running then typing else parting })
writer_at behind running failed h typing = send_line failed h
writer_at behind running failed h parting = say_goodbye behind failed h
writer_at behind running failed h silent = blocked

-- user_func_read_consol_write_mes.
unfoldable pub write_step : (ℕ → ℕ) → Bool → Bool → Channel → Moved Channel
write_step behind running failed h = writer_at behind running failed h h.writer

-- A message that mq_receive has put into the buffer; with the flag running as it is then.
unfoldable pub received : Bool → Mail → Channel → Moved (Channel × Bool)
received running m h =
    if length m.text == 0
    then moved (record h { reader = looking }, running)
    else if ltb (length m.text) buffer_size
    then (let seen = record h { shown = h.shown ++ c_str m.text ∷ [] } in
        if ltb base_messege_priority m.priority
        then moved (record seen { reader = deaf }, false)
        else moved (record seen { reader = looking }, running))
    else overrun

-- The queues for reading are opened with O_NONBLOCK: an empty one is tried again.
abbrev pub receive : Bool → Channel → List Mail → Moved (Channel × Bool)
receive running h [] = moved (record h { reader = looking }, running)
receive running h (m ∷ ms) = received running m (record h { queue = ms })

abbrev pub reader_at : Bool → Bool → Channel → ReaderAt → Moved (Channel × Bool)
reader_at running failed h looking =
    moved (record h { reader = if running then receiving else deaf }, running)
reader_at running failed h receiving =
    if failed then moved (record h { reader = deaf }, running) else receive running h h.queue
reader_at running failed h deaf = blocked

-- user_func_read_mes_write_consol.
unfoldable pub read_step : Bool → Bool → Channel → Moved (Channel × Bool)
read_step running failed h = reader_at running failed h h.reader

-- The queue from the first user to the second, the one back, and the flags of the two.
pub record Dialog : Type 0 where
  pub there : Channel
  pub back : Channel
  pub first_running : Bool
  pub second_running : Bool

-- What one of the threads does, with whether its call on the queue fails; or a signal.
pub data Action : Type 0 where
  first_writes : Bool → Action
  second_writes : Bool → Action
  first_reads : Bool → Action
  second_reads : Bool → Action
  first_stops : Action
  second_stops : Action

infixl 5 ◌and_then◌
abbrev pub ◌and_then◌ : {A B : Type 0} → Moved A → (A → Moved B) → Moved B
moved a and_then f = f a
blocked and_then f = blocked
overrun and_then f = overrun

unfoldable pub act : (ℕ → ℕ) → Dialog → Action → Moved Dialog
act behind d (first_writes failed) =
    write_step behind d.first_running failed d.there and_then λ h. moved (record d { there = h })
act behind d (second_writes failed) =
    write_step behind d.second_running failed d.back and_then λ h. moved (record d { back = h })
act behind d (first_reads failed) = read_step d.first_running failed d.back and_then λ r.
    moved (record d { back = r.0; first_running = r.1 })
act behind d (second_reads failed) = read_step d.second_running failed d.there and_then λ r.
    moved (record d { there = r.0; second_running = r.1 })
act behind d first_stops = moved (record d { first_running = false })
act behind d second_stops = moved (record d { second_running = false })

unfoldable pub converse : (ℕ → ℕ) → Dialog → List Action → Moved Dialog
converse behind d [] = moved d
converse behind d (a ∷ more) = act behind d a and_then λ d'. converse behind d' more

abbrev pub open_channel : Bytes → Channel
open_channel input = record {
  input = input;
  writer = testing;
  queue = [];
  reader = looking;
  shown = [];
}

-- Two users who start, with what their consoles will give.
abbrev pub start : Bytes → Bytes → Dialog
start first second = record {
  there = open_channel first;
  back = open_channel second;
  first_running = true;
  second_running = true;
}
