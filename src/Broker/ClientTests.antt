-- ===== src/Broker/ClientTests.antt =====
-- The theorems about the clients of the broker, and about its end, at small inputs.
use eltex_modul.Common.{
  ℕ, zero, suc, ◌<◌, ◌≡◌, ◌≢◌, refl, Bool, true, false, none, some, List, [], ◌∷◌, ◌++◌, arith,
  length,
}
use eltex_modul.Common.Int.{ℤ, pos, ◌==ℤ◌}
use eltex_modul.Common.Text.{Bytes, utf8, c_str}
use eltex_modul.Common.Decimal.{print_ℤ}
use eltex_modul.Broker.Memory.{ok, no_nodes}
use eltex_modul.Broker.Header.{parsed, parse_message}
use eltex_modul.Broker.Message.{message_text}
use eltex_modul.Broker.Lines.{
  get_str_by_file, nth_line, fits_or_fault, get_str-nth_line, get_str-missing,
}
use eltex_modul.Broker.Generate.{Setting, Generated, generate_messege, parse-generate}
use eltex_modul.Broker.Client.{Own, Draw}
use eltex_modul.Broker.Serve.{Faithful, Served-Faithful}
use eltex_modul.Broker.Shutdown.{Finished, send_sigint-Finished}
use eltex_modul.Broker.Tests.{subscription, subscribed, one_subscriber}
use eltex_modul.Common.{map, ◌++◌, true, ◌≡◌, List, [], ◌∷◌}
use eltex_modul.Common.Int.{negsuc}
use eltex_modul.Common.Text.{Bytes}
use eltex_modul.Broker.Memory.{ok}
use eltex_modul.Broker.Client.{accepted, subscriber_process}
use eltex_modul.Broker.Learning.{learn, Distinct}
use eltex_modul.Broker.Subscriber.{Reception, sub_loop, sub_main, unsub_text, sub_main-gives_up}
use eltex_modul.Common.{length, ◌<◌}
use eltex_modul.Broker.Generate.{max_text_size}
use eltex_modul.Broker.Message.{message_text}

abbrev three_lines : Bytes
three_lines = utf8 "sport\nnews\nmusic\n"

nth_line_example :
    get_str_by_file 20 255 0 (some three_lines) 1 ≡ fits_or_fault 255 (nth_line 1 three_lines)
nth_line_example = get_str-nth_line 20 255 0 three_lines 1 (omega arith)

missing_example : get_str_by_file 20 255 0 none 1 ≢ ok (utf8 "news")
missing_example = get_str-missing 20 255 0 1 (utf8 "news") (omega arith)

abbrev setting : Setting
setting = record {
  topics_file = some three_lines;
  texts_file = some three_lines;
  junk = 0;
  random = 21;
  pid = pos 77;
}

abbrev unset : Generated
unset = record { code = pos 0; text = []; topic = [] }

text_fits : length (message_text (utf8 "send") (pos 77) (utf8 "news") (utf8 "news")) < 8192
unfolding message_text print_ℤ
text_fits = omega arith

generate_example :
    (g : Generated) × (generate_messege 20 setting (utf8 "send") unset ≡ ok g)
    × (g.code ≡ pos 0)
    × (g.topic ≡ nth_line 1 three_lines)
    × (parse_message g.text
        ≡ parsed (record { command = utf8 "send"; sender_pid = pos 77; topic = g.topic }))
unfolding c_str
generate_example =
    parse-generate 20 setting (utf8 "send") three_lines three_lines unset
      (record {
        full = omega arith;
        short = omega arith;
        no_comma = ground arith;
        one_line = ground arith;
      })
      (omega arith)
      (record {
        topics_there = refl;
        texts_there = refl;
        topics_fuel = omega arith;
        texts_fuel = omega arith;
        topic = record {
          full = omega arith;
          short = omega arith;
          no_comma = ground arith;
          one_line = ground arith;
        };
        string = ground arith;
        full = omega arith;
        short = omega arith;
        fits = text_fits;
      })

abbrev draw : ℕ → Bytes → Draw
draw p topic = record {
  generated = record { code = pos 0; text = topic ++ utf8 "!"; topic = topic };
  for_topic = p;
  taken = true;
}

abbrev draws : List Draw
draws = draw 1 (utf8 "news") ∷ draw 2 (utf8 "sport") ∷ draw 3 (utf8 "news") ∷ []

abbrev no_topics : Own
no_topics = record { topics = λ p. none; list = no_nodes; nodes = 0 }

-- Process 7 is alive for two seconds more.
abbrev alive_for_two : ℕ → ℤ → Bool
alive_for_two zero pid = pid ==ℤ pos 7
alive_for_two (suc zero) pid = pid ==ℤ pos 7
alive_for_two (suc (suc zero)) pid = pid ==ℤ pos 7
alive_for_two (suc (suc (suc n))) pid = false

one_Faithful : Faithful (subscription ∷ []) subscribed.world
one_Faithful = Served-Faithful (pos 0) one_subscriber

Finished_example :
    Finished subscribed.world one_Faithful.views one_Faithful.pubs one_Faithful.holds alive_for_two
Finished_example =
    send_sigint-Finished subscribed.world one_Faithful.views one_Faithful.pubs one_Faithful.holds
      alive_for_two

-- A signal interrupts msgrcv.
abbrev stopping : List Reception
stopping = record { received = negsuc 0; interrupted = true; text = []; returned = pos 0 } ∷ []

one_round : sub_loop stopping ≡ ok 1
unfolding sub_loop subscriber_process
one_round = refl

news_fits : length (unsub_text (pos 7) (utf8 "news")) < max_text_size
unfolding message_text print_ℤ
news_fits = omega arith

sport_fits : length (unsub_text (pos 7) (utf8 "sport")) < max_text_size
unfolding message_text print_ℤ
sport_fits = omega arith

gives_up_example :
    let l = learn [] draws in
    (sub_main true no_topics draws stopping (pos 7) (λ i. accepted)
      ≡ ok (l.1 ++ map (unsub_text (pos 7)) l.0))
    × Distinct l.0
gives_up_example =
    sub_main-gives_up no_topics [] draws stopping 1 (pos 7)
      (record { list = refl; chain = tt; count = omega arith }) tt
      (
        omega arith,
        refl,
        refl,
        refl,
        refl,
        (omega arith, refl, refl, refl, refl, (omega arith, refl, refl, refl, refl, tt)),
      )
      tt (news_fits, (sport_fits, (news_fits, tt))) one_round
