-- ===== src/Broker/Refine.antt =====
-- broker_process of 02/src/broker.c does what the book says.
use eltex_modul.Common.{
  ℕ, ◌≡◌, refl, inl, inr, Bool, true, false, Option, none, some, List, [], ◌==◌, Bool-cases,
}
use eltex_modul.Common.Int.{ℤ, negsuc}
use eltex_modul.Common.Text.{Bytes, str_eq, utf8}
use eltex_modul.Broker.Memory.{within, Run, ok, fault}
use eltex_modul.Broker.Chain.{Cells}
use eltex_modul.Broker.Header.{
  text_fits, header_fits, Control, Parsed, no_newline, few_commas, crash, parsed, parse_message,
}
use eltex_modul.Broker.Process.{
  World, Mallocs, Outcome, outcome, run_command, handle_message, broker_process, size_t,
}
use eltex_modul.Broker.Book.{
  View, Holds, book_of, Answer, answer_command, answer, answered, unchanged,
}
use eltex_modul.Broker.Joining.{Free}
pub use eltex_modul.Broker.Publishing.{Refined}
use eltex_modul.Broker.Publishing.{send-Refined}
use eltex_modul.Broker.Subscribing.{subscribe-Refined}

-- The addresses that malloc gives are those of no node.
pub record Fresh (w : World) (m : Mallocs) : Type 0 where
  pub publisher : Free w.heap.pubs m.for_publisher
  pub subscriber : Free w.heap.subs m.for_subscriber
  pub topic : Free w.heap.topics m.for_topic

command-Refined :
    (w : World) (vs : List View) (ps : Cells ℤ) (m : Mallocs) (accepts : ℕ → Bool) (text : Bytes)
    (c : Control)
    → Holds w vs ps
    → Fresh w m
    → Refined (run_command w m accepts text c) (answer_command m accepts text c (book_of vs ps))
unfolding run_command answer_command
command-Refined w vs ps m accepts text c h f = elim (Bool-cases (str_eq c.command (utf8 "send"))) [
  | inl e ↦ rw e (send-Refined w vs ps m.for_publisher accepts text c h f.publisher)
  | inr e ↦ rw e (elim (Bool-cases (str_eq c.command (utf8 "subscribe"))) [
    | inl g ↦ rw g (subscribe-Refined w vs ps m.for_subscriber m.for_topic c h f.subscriber f.topic)
    | inr g ↦ rw g (record { world = w; views = vs; pubs = ps; run = refl; holds = h; book = refl })
  ])
]

-- What a run is to do: as the answer says, or crash where there is none.
abbrev pub Does : Run Outcome → Option Answer → Type 0
Does r none = r ≡ fault
Does r (some a) = Refined r a

within-Does :
    (fits : Bool) (r : Run Outcome) (a : Answer)
    → Refined r a
    → Does (within fits r) (answered fits a)
within-Does true r a d = d
within-Does false r a d = refl

unchanged-Refined :
    (w : World) (vs : List View) (ps : Cells ℤ) (result : Option ℤ)
    → Holds w vs ps
    → Refined (ok (outcome w [] result)) (unchanged (book_of vs ps) result)
unchanged-Refined w vs ps result h = record {
  world = w;
  views = vs;
  pubs = ps;
  run = refl;
  holds = h;
  book = refl;
}

handle-Does :
    (w : World) (vs : List View) (ps : Cells ℤ) (m : Mallocs) (accepts : ℕ → Bool) (text : Bytes)
    (p : Parsed)
    → Holds w vs ps
    → Fresh w m
    → Does (handle_message w m accepts text p) (answer m accepts text p (book_of vs ps))
unfolding handle_message answer
handle-Does w vs ps m accepts text no_newline h f =
    within-Does (text_fits text) _ _ (unchanged-Refined w vs ps (some (negsuc 2)) h)
handle-Does w vs ps m accepts text few_commas h f =
    within-Does (header_fits text) _ _ (unchanged-Refined w vs ps (some (negsuc 3)) h)
handle-Does w vs ps m accepts text crash h f = refl
handle-Does w vs ps m accepts text (parsed c) h f =
    within-Does (text_fits text) _ _ (command-Refined w vs ps m accepts text c h f)

-- The code on lists in memory does what the book says. When the lists hold a book, some bytes were
-- received and malloc gives NULL or new nodes, then for a message that has an answer: broker_process sends
-- just the messages of the answer, in that order, returns its result and leaves lists that hold its book,
-- with no access out of place and no loop without end. A message without an answer makes the program crash
-- or leave an array: one whose header cannot be taken apart, and one of 8192 bytes or more, save that with
-- too few commas only the header must be shorter. This covers a failed malloc, a message that the queue
-- refuses, a repeated subscription and an unknown command.
pub process-Does :
    (w : World) (vs : List View) (ps : Cells ℤ) (m : Mallocs) (accepts : ℕ → Bool) (received : ℤ)
    (text : Bytes)
    → Holds w vs ps
    → Fresh w m
    → (size_t received == 0) ≡ false
    → Does
        (broker_process w m accepts received text)
        (answer m accepts text (parse_message text) (book_of vs ps))
unfolding broker_process
process-Does w vs ps m accepts received text h f some_bytes =
    rw some_bytes (handle-Does w vs ps m accepts text (parse_message text) h f)
