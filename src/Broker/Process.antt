-- ===== src/Broker/Process.antt =====
-- The state of the broker and broker_process: 02/src/broker.c, 02/src/subscriber.c and init_publisher of
-- 02/src/publisher.c.
--
-- `nodes` counts the nodes that have been allocated; nothing is ever freed. It is no variable of the
-- program: it bounds the loops, which run on one more round of fuel. What malloc returns is an
-- argument, NULL where it fails; whether the queue takes a message is a function of its number.
use eltex_modul.Common.{
  ℕ, zero, suc, ◌-◌, ◌^◌, Bool, true, false, not, Option, none, some, List, [], ◌∷◌, ◌==◌,
  if◌then◌else◌, take,
}
use eltex_modul.Common.Int.{ℤ, pos, negsuc, ◌==ℤ◌}
use eltex_modul.Common.Text.{Bytes, str_eq, utf8}
use eltex_modul.Broker.Memory.{
  within, Run, ok, fault, out_of_fuel, ◌>>=◌, Ptr, null, Store, Queue, no_nodes, node, write, load,
  append, find,
}
use eltex_modul.Broker.Header.{
  text_fits, header_fits, Control, Parsed, no_newline, few_commas, crash, parsed, parse_message,
  max_topic_size,
}

pub record Subscriber : Type 0 where
  pub pid : ℤ
  pub topics : Queue

pub record Heap : Type 0 where
  pub topics : Store Bytes
  pub subs : Store Subscriber
  pub pubs : Store ℤ
  pub nodes : ℕ

pub record Broker : Type 0 where
  pub sub_list : Queue
  pub pub_list : Queue
  pub queue_id : ℤ

pub record World : Type 0 where
  pub broker : Broker
  pub heap : Heap

-- What malloc returns for a publisher, a subscriber and a topic.
pub record Mallocs : Type 0 where
  pub for_publisher : Ptr
  pub for_subscriber : Ptr
  pub for_topic : Ptr

-- `result` is `none` where the function ends without a return.
pub record Outcome : Type 0 where
  pub world : World
  pub sent : List (ℤ × Bytes)
  pub result : Option ℤ

unfoldable pub init_broker : ℤ → Broker
init_broker msqid = record { sub_list = no_nodes; pub_list = no_nodes; queue_id = msqid }

abbrev pub new_subscriber : ℤ → Subscriber
new_subscriber pid = record { pid = pid; topics = no_nodes }

unfoldable pub init_subscriber : Store Subscriber → Ptr → ℤ → Store Subscriber
init_subscriber h p pid = write h p (node (new_subscriber pid) null)

unfoldable pub init_publisher : Store ℤ → Ptr → ℤ → Store ℤ
init_publisher h p pid = write h p (node pid null)

-- `strncpy` into the array of a topic.
abbrev pub topic_name : Bytes → Bytes
topic_name buf = take (max_topic_size - 1) buf

unfoldable pub init_topic : Store Bytes → Ptr → Bytes → Store Bytes
init_topic h p buf = write h p (node (topic_name buf) null)

abbrev pub has_pid : ℤ → Subscriber → Bool
has_pid pid s = s.pid ==ℤ pid

-- `is_subscriber_in_list` asks whether it gives NULL.
unfoldable pub get_subscriber_by_broker : World → ℤ → Run Ptr
get_subscriber_by_broker w pid =
    find (suc w.heap.nodes) w.heap.subs (has_pid pid) w.broker.sub_list.head

unfoldable pub is_subscriber_in_list : World → ℤ → Run Bool
is_subscriber_in_list w pid = do p ← get_subscriber_by_broker w pid; ok (not (p == null))

unfoldable pub is_publiser_in_list : World → ℤ → Run Bool
is_publiser_in_list w pid = do
  p ← find (suc w.heap.nodes) w.heap.pubs (λ q. q ==ℤ pid) w.broker.pub_list.head
  ok (not (p == null))

unfoldable pub add_subscrider : World → Ptr → Run World
add_subscrider w p = do
  r ← append w.heap.subs w.broker.sub_list p
  ok (record { broker = record w.broker { sub_list = r.1 }; heap = record w.heap { subs = r.0 } })

unfoldable pub add_publisher : World → Ptr → Run World
add_publisher w p = do
  r ← append w.heap.pubs w.broker.pub_list p
  ok (record { broker = record w.broker { pub_list = r.1 }; heap = record w.heap { pubs = r.0 } })

-- A NULL for either is refused, and nothing changes.
unfoldable pub add_topic : World → Ptr → Ptr → Run World
add_topic w sub topic = if sub == null then ok w else if topic == null then ok w else (do
  n ← load w.heap.subs sub
  r ← append w.heap.topics n.value.topics topic
  let s = record n.value { topics = r.1 }
  ok (record w {
    heap = record w.heap { topics = r.0; subs = write w.heap.subs sub (node s n.next) };
  }))

-- A publisher that is not in the list is added; `none` if there is no memory for it.
unfoldable pub with_publisher : World → Ptr → ℤ → Run (Option World)
with_publisher w p pid = do
  known ← is_publiser_in_list w pid
  if known then ok (some w) else if p == null then ok none else (do
    let pubs = init_publisher w.heap.pubs p pid
    w' ←
        add_publisher (record w { heap = record w.heap { pubs = pubs; nodes = suc w.heap.nodes } })
          p
    ok (some w'))

unfoldable pub with_subscriber : World → Ptr → ℤ → Run (Option World)
with_subscriber w p pid = do
  known ← is_subscriber_in_list w pid
  if known then ok (some w) else if p == null then ok none else (do
    let subs = init_subscriber w.heap.subs p pid
    w' ←
        add_subscrider (record w { heap = record w.heap { subs = subs; nodes = suc w.heap.nodes } })
          p
    ok (some w'))

-- What the loop over the subscribers has sent; `stopped` when a message was refused.
pub record Sent : Type 0 where
  pub messages : List (ℤ × Bytes)
  pub stopped : Bool

abbrev pub nothing_sent : Bool → Sent
nothing_sent stopped = record { messages = []; stopped = stopped }

abbrev pub one_more : ℤ × Bytes → Sent → Sent
one_more m s = record s { messages = m ∷ s.messages }

-- The inner loop: whether a topic of the list is the one.
unfoldable pub has_topic : Heap → Bytes → Queue → Run Bool
has_topic h topic q = do
  p ← find (suc h.nodes) h.topics (λ t. str_eq t topic) q.head
  ok (not (p == null))

unfoldable pub send_loop : ℕ → Heap → (ℕ → Bool) → ℕ → Bytes → Bytes → Ptr → Run Sent
send_loop zero h accepts k topic text p = out_of_fuel
send_loop (suc fuel) h accepts k topic text p = if p == null then ok (nothing_sent false) else (do
  n ← load h.subs p
  wanted ← has_topic h topic n.value.topics
  let skip = send_loop fuel h accepts k topic text n.next
  let go_on = (do
    s ← send_loop fuel h accepts (suc k) topic text n.next
    ok (one_more (n.value.pid, text) s))
  if not wanted then skip else if accepts k then go_on else ok (nothing_sent true))

abbrev pub outcome : World → List (ℤ × Bytes) → Option ℤ → Outcome
outcome w sent result = record { world = w; sent = sent; result = result }

abbrev pub no_memory : World → Outcome
no_memory w = outcome w [] (some (negsuc 4))

abbrev pub sent_outcome : World → Sent → Outcome
sent_outcome w s = outcome w s.messages (if s.stopped then some (negsuc 3) else none)

unfoldable pub send_to_all : (ℕ → Bool) → Control → Bytes → World → Option World → Run Outcome
send_to_all accepts c text old none = ok (no_memory old)
send_to_all accepts c text old (some w) = do
  s ← send_loop (suc w.heap.nodes) w.heap accepts 0 c.topic text w.broker.sub_list.head
  ok (sent_outcome w s)

-- A topic for the subscriber: without memory for it nothing is added.
unfoldable pub subscribe_to : Ptr → Control → World → Option World → Run Outcome
subscribe_to p c old none = ok (no_memory old)
subscribe_to p c old (some w) = do
  sub ← get_subscriber_by_broker w c.sender_pid
  let named = record w.heap {
    topics = init_topic w.heap.topics p c.topic;
    nodes = suc w.heap.nodes;
  }
  w' ← add_topic (if p == null then w else record w { heap = named }) sub p
  ok (outcome w' [] none)

-- The commands; "unsubscribe", like any other word, changes nothing.
unfoldable pub run_command : World → Mallocs → (ℕ → Bool) → Bytes → Control → Run Outcome
run_command w m accepts text c =
    if str_eq c.command (utf8 "send")
    then (do r ← with_publisher w m.for_publisher c.sender_pid; send_to_all accepts c text w r)
    else if str_eq c.command (utf8 "subscribe")
    then (do r ← with_subscriber w m.for_subscriber c.sender_pid; subscribe_to m.for_topic c w r)
    else ok (outcome w [] none)

-- `text` is the string that begins in `rcv_mes.text`: one without a zero byte in the array goes on behind
-- it. Without a newline strchr walks through the whole of it; with too few commas only the header is read
-- and copied; else all is.
unfoldable pub handle_message : World → Mallocs → (ℕ → Bool) → Bytes → Parsed → Run Outcome
handle_message w m accepts text no_newline =
    within (text_fits text) (ok (outcome w [] (some (negsuc 2))))
handle_message w m accepts text few_commas =
    within (header_fits text) (ok (outcome w [] (some (negsuc 3))))
handle_message w m accepts text crash = fault
handle_message w m accepts text (parsed c) =
    within (text_fits text) (run_command w m accepts text c)

-- The number of bytes as a size_t: the -1 of a call that fails is no zero.
abbrev pub size_t : ℤ → ℕ
size_t (pos n) = n
size_t (negsuc n) = 2 ^ 64 - 1 - n

-- `received` is what msgrcv returns, `text` the string that then begins in rcv_mes.text.
unfoldable pub broker_process : World → Mallocs → (ℕ → Bool) → ℤ → Bytes → Run Outcome
broker_process w m accepts received text =
    if size_t received == 0
    then ok (outcome w [] (some (pos 1)))
    else handle_message w m accepts text (parse_message text)
