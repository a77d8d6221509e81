-- ===== src/Broker/Tests.antt =====
-- Runs of the broker, and its theorems at small messages.
use eltex_modul.Common.{ℕ, ◌≡◌, refl, Bool, true, none, [], ◌∷◌, arith}
use eltex_modul.Common.Int.{pos}
use eltex_modul.Common.Text.{Bytes, utf8}
use eltex_modul.Common.Decimal.{print_ℤ}
use eltex_modul.Broker.Memory.{
  Run, ok, fault, out_of_fuel, append, find, load, set_next, link_tail, write,
}
use eltex_modul.Broker.Header.{text_fits, parsed, parse_message, max_topic_size}
use eltex_modul.Broker.Message.{message_text, IsField, parse-message_text}
use eltex_modul.Broker.Process.{
  World, Mallocs, Outcome, outcome, init_broker, broker_process, handle_message, run_command,
  with_subscriber, is_subscriber_in_list, get_subscriber_by_broker, add_subscrider, add_topic,
  init_topic, init_subscriber, subscribe_to,
}
use eltex_modul.Broker.Book.{Holds, book_of, answer}
use eltex_modul.Broker.Refine.{Fresh, Does, process-Does}
use eltex_modul.Broker.Serve.{
  Input, Usual, Served, start, message, initial, Faithful, Served-Faithful,
}
use eltex_modul.Broker.Delivery.{Published, publish-Published}

-- The outcome of a run that ends.
unfoldable result_of : World → Run Outcome → Outcome
result_of w (ok o) = o
result_of w fault = outcome w [] none
result_of w out_of_fuel = outcome w [] none

abbrev mallocs : Mallocs
mallocs = record { for_publisher = 10; for_subscriber = 20; for_topic = 30 }

abbrev later_mallocs : Mallocs
later_mallocs = record { for_publisher = 11; for_subscriber = 21; for_topic = 31 }

abbrev always : ℕ → Bool
always k = true

abbrev pub subscription : Input
subscription = record {
  text = utf8 "subscribe,7,news\nx";
  received = pos 8192;
  mallocs = mallocs;
  accepts = always;
}

abbrev news : Bytes
news = utf8 "send,8,news\nhello"

abbrev publication : Input
publication = record { text = news; received = pos 8192; mallocs = later_mallocs; accepts = always }

abbrev pub subscribed : Outcome
unfolding result_of init_broker broker_process handle_message text_fits run_command with_subscriber
    is_subscriber_in_list get_subscriber_by_broker add_subscrider init_subscriber subscribe_to
    add_topic init_topic append find load set_next link_tail write parse_message
subscribed =
    result_of (initial (pos 0))
      (broker_process (initial (pos 0)) mallocs always (pos 8192) subscription.text)

run : broker_process (initial (pos 0)) mallocs always (pos 8192) subscription.text ≡ ok subscribed
unfolding result_of init_broker broker_process handle_message text_fits run_command with_subscriber
    is_subscriber_in_list get_subscriber_by_broker add_subscrider init_subscriber subscribe_to
    add_topic init_topic append find load set_next link_tail write parse_message
run = refl

initial-Fresh : Fresh (initial (pos 0)) mallocs
initial-Fresh = record { publisher = λ ne. refl; subscriber = λ ne. refl; topic = λ ne. refl }

initial-Usual : Usual (initial (pos 0)) subscription
initial-Usual = record {
  some_bytes = refl;
  memory = record { for_publisher = refl; for_subscriber = refl; for_topic = refl };
  fresh = initial-Fresh;
}

pub one_subscriber : Served (pos 0) (subscription ∷ []) subscribed.world
one_subscriber = message (start refl) subscription initial-Usual subscribed run refl

publication-Usual : Usual subscribed.world publication
unfolding result_of init_broker broker_process handle_message text_fits run_command with_subscriber
    is_subscriber_in_list get_subscriber_by_broker add_subscrider init_subscriber subscribe_to
    add_topic init_topic append find load set_next link_tail write parse_message
publication-Usual = record {
  some_bytes = refl;
  memory = record { for_publisher = refl; for_subscriber = refl; for_topic = refl };
  fresh = record { publisher = λ ne. refl; subscriber = λ ne. refl; topic = λ ne. refl };
}

news-IsField : IsField max_topic_size (utf8 "news")
news-IsField = record {
  full = omega arith;
  short = omega arith;
  no_comma = ground arith;
  one_line = ground arith;
}

news_text : news ≡ message_text (utf8 "send") (pos 8) (utf8 "news") (utf8 "hello")
unfolding message_text print_ℤ
news_text = refl

Published_example : Published (subscription ∷ []) subscribed.world publication (utf8 "news")
Published_example =
    publish-Published (pos 0) publication (pos 8) (utf8 "news") (utf8 "hello") one_subscriber
      publication-Usual (λ k. refl) (omega arith) news-IsField (omega arith) news_text

Faithful_example : Faithful (subscription ∷ []) subscribed.world
Faithful_example = Served-Faithful (pos 0) one_subscriber

initial_holds : Holds (initial (pos 0)) [] []
unfolding init_broker
initial_holds = record {
  sub_list = refl;
  pub_list = refl;
  subs = tt;
  pubs = tt;
  topics = tt;
  sub_count = omega arith;
  pub_count = omega arith;
  topic_count = tt;
}

Does_example :
    Does
      (broker_process (initial (pos 0)) mallocs always (pos 8192) subscription.text)
      (answer mallocs always subscription.text (parse_message subscription.text) (book_of [] []))
Does_example =
    process-Does (initial (pos 0)) [] [] mallocs always (pos 8192) subscription.text initial_holds
      initial-Fresh refl

parse_example :
    parse_message (message_text (utf8 "subscribe") (pos 7) (utf8 "news") (utf8 "x"))
    ≡ parsed (record { command = utf8 "subscribe"; sender_pid = pos 7; topic = utf8 "news" })
parse_example =
    parse-message_text (utf8 "subscribe") (pos 7) (utf8 "news") (utf8 "x")
      (record {
        full = omega arith;
        short = omega arith;
        no_comma = ground arith;
        one_line = ground arith;
      })
      (omega arith) news-IsField
