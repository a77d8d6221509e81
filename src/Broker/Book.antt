-- ===== src/Broker/Book.antt =====
-- What the broker promises, without pointers: who has subscribed to what, who has published, and who is
-- sent a message; and what it means that the lists in memory hold such a book.
use eltex_modul.Common.{
  ℕ, suc, ◌≤◌, ◌≡◌, Bool, true, false, ◌||◌, Option, none, some, List, [], ◌∷◌, ◌++◌, ◌==◌,
  if◌then◌else◌, length,
}
use eltex_modul.Common.Int.{ℤ, negsuc, ◌==ℤ◌}
use eltex_modul.Common.Text.{Bytes, str_eq, utf8}
use eltex_modul.Broker.Memory.{Ptr, null, Store}
use eltex_modul.Broker.Chain.{Cells, queue_of, values, has, Chain}
use eltex_modul.Broker.Header.{
  text_fits, header_fits, Control, Parsed, no_newline, few_commas, crash, parsed,
}
use eltex_modul.Broker.Process.{Subscriber, World, Mallocs, topic_name}

-- A subscriber and the topics that it has asked for, in order.
pub record Entry : Type 0 where
  pub pid : ℤ
  pub topics : List Bytes

pub record Book : Type 0 where
  pub subscribers : List Entry
  pub publishers : List ℤ

unfoldable pub is_known : ℤ → List Entry → Bool
is_known pid [] = false
is_known pid (e ∷ es) = (e.pid ==ℤ pid) || is_known pid es

unfoldable pub is_publisher : ℤ → List ℤ → Bool
is_publisher pid [] = false
is_publisher pid (q ∷ qs) = (q ==ℤ pid) || is_publisher pid qs

-- A topic for the first entry with the pid.
unfoldable pub subscribe : ℤ → Bytes → List Entry → List Entry
subscribe pid topic [] = []
subscribe pid topic (e ∷ es) =
    if e.pid ==ℤ pid
    then record e { topics = e.topics ++ topic ∷ [] } ∷ es
    else e ∷ subscribe pid topic es

unfoldable pub wants : Bytes → List Bytes → Bool
wants topic [] = false
wants topic (t ∷ ts) = str_eq t topic || wants topic ts

-- The pids of those who want the topic, in order, each once.
unfoldable pub audience : Bytes → List Entry → List ℤ
unfolding wants
audience topic [] = []
audience topic (e ∷ es) =
    if wants topic e.topics then e.pid ∷ audience topic es else audience topic es

-- The messages for an audience up to the first that the queue refuses, and whether one was refused.
unfoldable pub dispatch : (ℕ → Bool) → ℕ → Bytes → List ℤ → List (ℤ × Bytes) × Bool
dispatch accepts k text [] = ([], false)
dispatch accepts k text (pid ∷ pids) =
    let rest = dispatch accepts (suc k) text pids in
    if accepts k then ((pid, text) ∷ rest.0, rest.1) else ([], true)

-- What one message does to the book, what is sent, and what is returned.
pub record Answer : Type 0 where
  pub book : Book
  pub sent : List (ℤ × Bytes)
  pub result : Option ℤ

abbrev pub unchanged : Book → Option ℤ → Answer
unchanged b result = record { book = b; sent = []; result = result }

abbrev pub is_null : Ptr → Bool
is_null p = p == null

abbrev pub published : (ℕ → Bool) → Bytes → Bytes → Book → Answer
published accepts topic text b =
    let r = dispatch accepts 0 text (audience topic b.subscribers) in
    record { book = b; sent = r.0; result = if r.1 then some (negsuc 3) else none }

unfoldable pub send : Bool → (ℕ → Bool) → Bytes → Control → Book → Answer
unfolding dispatch audience is_publisher
send failed accepts text c b =
    if is_publisher c.sender_pid b.publishers
    then published accepts c.topic text b
    else if failed
    then unchanged b (some (negsuc 4))
    else published accepts c.topic text
        (record b { publishers = b.publishers ++ c.sender_pid ∷ [] })

abbrev pub subscribed : Bool → Control → List Entry → List Entry
subscribed failed c es = if failed then es else subscribe c.sender_pid (topic_name c.topic) es

unfoldable pub take_subscription : Bool → Bool → Control → Book → Answer
unfolding subscribe is_known
take_subscription failed topic_failed c b =
    if is_known c.sender_pid b.subscribers
    then unchanged (record b { subscribers = subscribed topic_failed c b.subscribers }) none
    else if failed
    then unchanged b (some (negsuc 4))
    else unchanged
        (record b {
          subscribers =
              subscribed topic_failed c
                (b.subscribers ++ (record { pid = c.sender_pid; topics = [] }) ∷ []);
        })
        none

unfoldable pub answer_command : Mallocs → (ℕ → Bool) → Bytes → Control → Book → Answer
unfolding send take_subscription
answer_command m accepts text c b =
    if str_eq c.command (utf8 "send")
    then send (is_null m.for_publisher) accepts text c b
    else if str_eq c.command (utf8 "subscribe")
    then take_subscription (is_null m.for_subscriber) (is_null m.for_topic) c b
    else unchanged b none

abbrev pub answered : Bool → Answer → Option Answer
answered true a = some a
answered false a = none

-- The answer to a message; `none` for one at which the program crashes or leaves its arrays.
unfoldable pub answer : Mallocs → (ℕ → Bool) → Bytes → Parsed → Book → Option Answer
unfolding answer_command
answer m accepts text no_newline b = answered (text_fits text) (unchanged b (some (negsuc 2)))
answer m accepts text few_commas b = answered (header_fits text) (unchanged b (some (negsuc 3)))
answer m accepts text crash b = none
answer m accepts text (parsed c) b = answered (text_fits text) (answer_command m accepts text c b)

-- A subscriber in memory: its address, its pid and the nodes of its topics.
pub record View : Type 0 where
  pub at : Ptr
  pub pid : ℤ
  pub topics : Cells Bytes

abbrev pub cell : View → Ptr × Subscriber
cell v = (v.at, record { pid = v.pid; topics = queue_of v.topics })

abbrev pub cells : List View → Cells Subscriber
cells [] = []
cells (v ∷ vs) = cell v ∷ cells vs

abbrev pub entry : View → Entry
entry v = record { pid = v.pid; topics = values v.topics }

abbrev pub entries : List View → List Entry
entries [] = []
entries (v ∷ vs) = entry v ∷ entries vs

abbrev pub in_any : Ptr → List View → Bool
in_any a [] = false
in_any a (v ∷ vs) = has a v.topics || in_any a vs

abbrev pub Apart : Cells Bytes → List View → Type 0
Apart ts vs = (a : Ptr) → has a ts ≡ true → in_any a vs ≡ false

-- Each subscriber has its own chain of topics.
abbrev pub Topics : Store Bytes → List View → Type 0
Topics h [] = Unit {0}
Topics h (v ∷ vs) = Chain h v.topics × Apart v.topics vs × Topics h vs

abbrev pub Bounded : ℕ → List View → Type 0
Bounded n [] = Unit {0}
Bounded n (v ∷ vs) = (length v.topics ≤ n) × Bounded n vs

-- The lists in memory: subscribers, each with its topics, and publishers.
pub record Holds (w : World) (vs : List View) (ps : Cells ℤ) : Type 0 where
  pub sub_list : w.broker.sub_list ≡ queue_of (cells vs)
  pub pub_list : w.broker.pub_list ≡ queue_of ps
  pub subs : Chain w.heap.subs (cells vs)
  pub pubs : Chain w.heap.pubs ps
  pub topics : Topics w.heap.topics vs
  pub sub_count : length (cells vs) ≤ w.heap.nodes
  pub pub_count : length ps ≤ w.heap.nodes
  pub topic_count : Bounded w.heap.nodes vs

abbrev pub book_of : List View → Cells ℤ → Book
book_of vs ps = record { subscribers = entries vs; publishers = values ps }
