-- ===== src/Chat/Tests.antt =====
-- Rounds of the UDP chat at small texts.
use eltex_modul.Common.{List}
use eltex_modul.Common.{◌≡◌, refl, none, some, [], ◌∷◌, arith, replicate}
use eltex_modul.Common.Text.{utf8}
use eltex_modul.Chat.{sendto, show, choose_port, chat}
use eltex_modul.Chat.Rounds.{IsText, heard, ended, chat-echo}
use eltex_modul.Common.{true, ◌++◌, map}
use eltex_modul.Common.Int.{pos}
use eltex_modul.Common.Decimal.{print_ℤ}
use eltex_modul.Chat.{Effect, close}
use eltex_modul.Chat.Start.{
  Answers, left, main, all_said, join_msg, leave_msg, Turn, ready_of, sent_texts, main-heard,
}

hi-IsText : IsText (utf8 "hi")
hi-IsText = record {
  full = omega arith;
  fits = omega arith;
  string = ground arith;
  one_line = ground arith;
}

chat-echo_example :
    (chat 0 [] (heard 16777343 (utf8 "hi") ∷ replicate 3 ended)).effects
    ≡ show 16777343 (utf8 "hi") ∷ replicate 3 (sendto (utf8 "hi"))
chat-echo_example = chat-echo 0 16777343 3 [] (utf8 "hi") hi-IsText (ground arith)

bad_port : choose_port (some (utf8 "70000")) ≡ none
unfolding choose_port
bad_port = refl

abbrev obliging : Answers
obliging = record {
  has_socket = true;
  broadcasts = true;
  reuses = true;
  binds = λ n. true;
  local_address = 0;
}

-- It gets a packet while it types, and one alone.
abbrev turns : List Turn
turns =
    record {
      socket = some (some (record { sender = 5; bytes = utf8 "yo" }));
      text = some (utf8 "hi");
    }
    ∷ record { socket = some none; text = none }
    ∷ []

heard_example :
    (es : List Effect) × (main obliging (some (print_ℤ (pos 9000))) [] (map ready_of turns)
      ≡ left 9000 (sendto join_msg ∷ (es ++ sendto leave_msg ∷ close ∷ [])))
    × (sent_texts es ≡ utf8 "hi" ∷ [])
    × ((chat 0 [] (map (heard 16777343) (all_said (utf8 "hi" ∷ [])))).effects
        ≡ map (show 16777343) (all_said (utf8 "hi" ∷ [])))
heard_example =
    main-heard obliging 9000 16777343 0 [] [] turns (omega arith) (omega arith)
      (record { socket = refl; broadcasts = refl; reuses = refl; binds = refl }) (hi-IsText, tt)
      (ground arith)
