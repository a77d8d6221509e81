-- ===== src/Broker/Serve.antt =====
-- The loop of main in 02/src/broker.c over the messages that come, from its start on.
use eltex_modul.Common.{
  ℕ, ◌≡◌, refl, sym, ap, ◌∙◌, inl, inr, Bool, false, ◌||◌, Option, none, some, true, List, [], ◌∷◌,
  ◌==◌, arith, Bool-cases,
}
use eltex_modul.Common.Int.{ℤ, pos, negsuc}
use eltex_modul.Common.Text.{Bytes, str_eq, utf8}
use eltex_modul.Broker.Memory.{Run, ok}
use eltex_modul.Broker.Chain.{Cells}
use eltex_modul.Broker.Header.{
  text_fits, header_fits, Control, Parsed, no_newline, few_commas, crash, parsed, parse_message,
}
use eltex_modul.Broker.Process.{
  World, Mallocs, Outcome, outcome, init_broker, broker_process, size_t,
}
use eltex_modul.Broker.Book.{
  Entry, Book, View, entries, Holds, book_of, Answer, is_null, answer_command, answer, answered,
  unchanged,
}
use eltex_modul.Broker.Audience.{
  asks, Unique, Memory, subscribes, Kept, subscription-Kept, send-subscribers,
}
use eltex_modul.Broker.Refine.{Fresh, Does, process-Does}

-- The broker before the first message.
abbrev pub initial : ℤ → World
initial msqid = record {
  broker = init_broker msqid;
  heap = record { topics = λ p. none; subs = λ p. none; pubs = λ p. none; nodes = 0 };
}

initial-Holds : (msqid : ℤ) → Holds (initial msqid) [] []
unfolding init_broker
initial-Holds msqid = record {
  sub_list = refl;
  pub_list = refl;
  subs = tt;
  pubs = tt;
  topics = tt;
  sub_count = omega arith;
  pub_count = omega arith;
  topic_count = tt;
}

-- A message as it comes, and what the system calls answer while it is handled.
pub record Input : Type 0 where
  pub text : Bytes
  pub received : ℤ
  pub mallocs : Mallocs
  pub accepts : ℕ → Bool

-- The messages come with some bytes, and malloc gives new nodes.
pub record Usual (w : World) (i : Input) : Type 0 where
  pub some_bytes : (size_t i.received == 0) ≡ false
  pub memory : Memory i.mallocs
  pub fresh : Fresh w i.mallocs

-- The worlds that the loop comes to, with the messages handled so far, the last one first.
pub data Served (msqid : ℤ) : List Input → World → Type 0 where
  start : {w : World} → w ≡ initial msqid → Served msqid [] w
  message :
      {is : List Input} {w w' : World}
      → Served msqid is w
      → (i : Input) → Usual w i
      → (o : Outcome) → broker_process w i.mallocs i.accepts i.received i.text ≡ ok o
      → w' ≡ o.world
      → Served msqid (i ∷ is) w'

-- Whether `pid` has asked for the topic in one of the messages.
abbrev pub asked : ℤ → Bytes → List Input → Bool
asked pid topic [] = false
asked pid topic (i ∷ is) = subscribes pid topic (parse_message i.text) || asked pid topic is

-- The lists in memory stand for the subscriptions of the messages.
pub record Faithful (is : List Input) (w : World) : Type 0 where
  pub views : List View
  pub pubs : Cells ℤ
  pub holds : Holds w views pubs
  pub unique : Unique (entries views)
  pub asks_asked : (pid : ℤ) (topic : Bytes) → asks pid topic (entries views) ≡ asked pid topic is

abbrev KeptBy : Parsed → List Entry → Option Answer → Type 0
KeptBy p es none = Unit {0}
KeptBy p es (some a) =
    (pid : ℤ) (topic : Bytes) → Kept pid topic (subscribes pid topic p) es a.book.subscribers

command-Kept :
    (m : Mallocs) (accepts : ℕ → Bool) (text : Bytes) (c : Control) (b : Book)
    → Memory m
    → Unique b.subscribers
    → (pid : ℤ) (topic : Bytes)
    → Kept pid topic
        (subscribes pid topic (parsed c))
        b.subscribers
        (answer_command m accepts text c b).book.subscribers
unfolding answer_command
command-Kept m accepts text c b mem u pid topic =
    elim (Bool-cases (str_eq c.command (utf8 "send"))) [
      | inl e ↦ rw e (
          rw (send-subscribers (is_null m.for_publisher) accepts text c b)
            (record { asks_now = refl; unique = u }))
      | inr e ↦ rw e (elim (Bool-cases (str_eq c.command (utf8 "subscribe"))) [
        | inl g ↦ rw (g, mem.for_subscriber, mem.for_topic) (subscription-Kept pid topic c b u)
        | inr g ↦ rw g (record { asks_now = refl; unique = u })
      ])
    ]

answered-KeptBy :
    (p : Parsed) (es : List Entry) (fits : Bool) (a : Answer)
    → KeptBy p es (some a)
    → KeptBy p es (answered fits a)
answered-KeptBy p es true a k = k
answered-KeptBy p es false a k = tt

answer-Kept :
    (m : Mallocs) (accepts : ℕ → Bool) (text : Bytes) (p : Parsed) (b : Book)
    → Memory m
    → Unique b.subscribers
    → KeptBy p b.subscribers (answer m accepts text p b)
unfolding answer
answer-Kept m accepts text no_newline b mem u =
    answered-KeptBy no_newline b.subscribers (text_fits text) (unchanged b (some (negsuc 2)))
      (λ pid topic. record { asks_now = refl; unique = u })
answer-Kept m accepts text few_commas b mem u =
    answered-KeptBy few_commas b.subscribers (header_fits text) (unchanged b (some (negsuc 3)))
      (λ pid topic. record { asks_now = refl; unique = u })
answer-Kept m accepts text crash b mem u = tt
answer-Kept m accepts text (parsed c) b mem u =
    answered-KeptBy (parsed c) b.subscribers (text_fits text) (answer_command m accepts text c b)
      (command-Kept m accepts text c b mem u)

ok_inj : {a b : Outcome} → ok a ≡ ok b → a ≡ b
ok_inj e = cc

-- One message more, by what the run does and what the answer keeps.
next-Faithful :
    (is : List Input) (w : World) (i : Input) (f : Faithful is w) (o : Outcome) (r : Run Outcome)
    (a : Option Answer)
    → Does r a
    → KeptBy (parse_message i.text) (entries f.views) a
    → r ≡ ok o
    → Faithful (i ∷ is) o.world
next-Faithful is w i f o r none d k e = cc
next-Faithful is w i f o r (some a) d k e =
    let same : o ≡ outcome d.world a.sent a.result = ok_inj (sym e ∙ d.run) in
    let book : a.book.subscribers ≡ entries d.views =
      ap (λ (b : Book). b.subscribers) (sym d.book) in
    let kept : ((pid : ℤ) (topic : Bytes)
        → Kept pid topic (subscribes pid topic (parse_message i.text)) (entries f.views)
            (entries d.views)) =
      rw book at k in
    rw same (record {
      views = d.views;
      pubs = d.pubs;
      holds = d.holds;
      unique = (kept (pos 0) []).unique;
      asks_asked = λ pid topic.
          (kept pid topic).asks_now
          ∙ ap (λ b. subscribes pid topic (parse_message i.text) || b) (f.asks_asked pid topic);
    })

-- From the start of the broker on, as long as malloc succeeds and the program has not crashed, the lists
-- in memory are well formed, no process is in the list of subscribers twice, and a process is noted for a
-- topic exactly when one of the messages so far was its subscription of that topic: an "unsubscribe" does
-- not take it back.
pub Served-Faithful : (msqid : ℤ) {is : List Input} {w : World} → Served msqid is w → Faithful is w
Served-Faithful msqid (start e) = rw e (record {
  views = [];
  pubs = [];
  holds = initial-Holds msqid;
  unique = tt;
  asks_asked = λ pid topic. refl;
})
Served-Faithful msqid (message {is} {w} s i u o run e) =
    let f = Served-Faithful msqid s in
    rw e (
      next-Faithful is w i f o (broker_process w i.mallocs i.accepts i.received i.text)
        (answer i.mallocs i.accepts i.text (parse_message i.text) (book_of f.views f.pubs))
        (process-Does w f.views f.pubs i.mallocs i.accepts i.received i.text f.holds u.fresh
          u.some_bytes)
        (answer-Kept i.mallocs i.accepts i.text (parse_message i.text) (book_of f.views f.pubs)
          u.memory f.unique)
        run)
