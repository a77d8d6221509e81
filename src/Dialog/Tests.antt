-- ===== src/Dialog/Tests.antt =====
-- Runs of two users of 03/main.c.
use eltex_modul.Common.{ℕ, ◌≡◌, refl, true, false, List, [], ◌∷◌, arith}
use eltex_modul.Common.Text.{fgets, Bytes, utf8, c_str}
use eltex_modul.Dialog.{
  Channel, parting, testing, silent, looking, receiving, moved, overrun, read_console, put,
  send_line, write_step, received, read_step, enqueue, Dialog, Action, first_writes, second_writes,
  second_reads, second_stops, act, converse, open_channel, start,
}
use eltex_modul.Dialog.Writer.{Faithful}
use eltex_modul.Dialog.Delivery.{BothHeard, converse-BothHeard}
use eltex_modul.Dialog.Parting.{say_goodbye-overrun}
use eltex_modul.Dialog.Turn.{turns, converse-lines}
use eltex_modul.Common.{Bool, false, ℕ, ◌==◌}
use eltex_modul.Common.Text.{str_eq}
use eltex_modul.Common.Names.{has_name}
use eltex_modul.Dialog.Opening.{
  Queue, mq_name_1, created, Ends, talking, quit, begin, begin_again, finish,
}
use eltex_modul.Dialog.Crossing.{begin-crossed, begin-left_behind}

abbrev nothing_behind : ℕ → ℕ
nothing_behind n = 0

abbrev console : Bytes
console = utf8 "hi\nhow are you\n"

-- The first has written two lines, and the second has seen one of them and has got a signal.
abbrev later : Dialog
later = record {
  there = record {
    input = [];
    writer = testing;
    queue = record { text = utf8 "how are you\n"; priority = 1 } ∷ [];
    reader = looking;
    shown = utf8 "hi\n" ∷ [];
  };
  back = record (open_channel []) { writer = parting };
  first_running = true;
  second_running = false;
}

abbrev actions : List Action
actions =
    first_writes false
    ∷ first_writes false
    ∷ second_reads false
    ∷ first_writes false
    ∷ second_reads false
    ∷ first_writes false
    ∷ second_stops
    ∷ second_writes false
    ∷ []

two_lines : converse nothing_behind (start console []) actions ≡ moved later
unfolding converse act write_step read_step send_line put enqueue read_console fgets received c_str
two_lines = refl

converse_example : BothHeard console [] later
converse_example = converse-BothHeard console [] nothing_behind actions later two_lines

abbrev leaving : Channel
leaving = record (open_channel console) { writer = parting; reader = receiving }

leaving-Faithful : Faithful console leaving
leaving-Faithful = record {
  sent = 0;
  told = refl;
  proper = tt;
  room = omega arith;
  typed = λ e. refl;
}

goodbye_example :
    (h : Channel) × (write_step nothing_behind false false leaving ≡ moved h)
    × (h.writer ≡ silent)
    × (read_step true false h ≡ overrun)
goodbye_example =
    say_goodbye-overrun console nothing_behind false true leaving leaving-Faithful refl refl
      (omega arith)

-- A line, a blank one, and the beginning of another.
abbrev typing_console : Bytes
typing_console = utf8 "hi\n\nho"

lines_example :
    converse nothing_behind (start typing_console []) (turns (utf8 "hi" ∷ [] ∷ []))
    ≡ moved (record (start typing_console []) {
      there = record (open_channel typing_console) {
        input = utf8 "ho";
        shown = utf8 "hi\n" ∷ utf8 "\n" ∷ [];
      };
    })
lines_example =
    converse-lines nothing_behind (start typing_console []) (utf8 "hi" ∷ [] ∷ []) (utf8 "ho")
      (record { first_runs = refl; second_runs = refl; writer = refl; reader = refl; queue = refl })
      (ground arith, ground arith, omega arith, (tt, tt, omega arith, tt)) refl

abbrev room : Bytes
room = utf8 "room"

crossed_example :
    (first second : Ends) × (both : List Queue) × (begin (λ i. false) [] (room ∷ [])
      ≡ talking first both)
    × (begin (λ i. false) both (room ∷ []) ≡ talking second both)
    × (second.reads ≡ first.writes)
    × (second.writes ≡ first.reads)
    × (str_eq first.reads first.writes ≡ false)
    × (finish room second both ≡ both)
    × (finish room first both ≡ [])
unfolding has_name
crossed_example = begin-crossed room [] [] (omega arith) refl refl

-- Only the call number 1 fails: it creates the second queue.
abbrev second_fails : ℕ → Bool
second_fails i = i == 1

left_behind_example :
    (begin second_fails [] (room ∷ []) ≡ quit (created (mq_name_1 room) ∷ []))
    × ((n : ℕ)
        → begin_again n (created (mq_name_1 room) ∷ []) (room ∷ [])
          ≡ quit (created (mq_name_1 room) ∷ []))
unfolding has_name
left_behind_example = begin-left_behind room [] [] (omega arith) refl refl second_fails refl refl
