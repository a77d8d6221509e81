-- ===== src/Broker/Subscriber.antt =====
-- main of 02/src/main_sub.c: a subscriber from its start to its end; and main of 02/src/main_pub.c.
--
-- The messages that come until SIGINT are a list. Without the queue both programs exit at once.
use eltex_modul.Common.{
  ℕ, zero, suc, ◌≡◌, ◌<◌, refl, ap, ◌∙◌, inl, inr, Bool, true, false, Option, none, some, List, [],
  ◌∷◌, ◌++◌, map, if◌then◌else◌, ltb, ◌==◌, length, arith, Bool-cases,
}
use eltex_modul.Common.Int.{ℤ, negsuc, ◌==ℤ◌}
use eltex_modul.Common.Text.{Bytes, utf8}
use eltex_modul.Broker.Memory.{Run, ok, ◌>>=◌, null, Store, node}
use eltex_modul.Broker.Chain.{Cells, first, values, Chain, not_null, load-some}
use eltex_modul.Broker.Book.{wants}
use eltex_modul.Broker.Message.{message_text}
use eltex_modul.Broker.Generate.{Generated, generate_unsub_messege, max_text_size}
use eltex_modul.Broker.Client.{
  Own, Draw, Sending, accepted, init_sub_for_broker, subscriber_process, unsub_loop,
  unsub_for_broker, publish,
}
use eltex_modul.Broker.Learning.{OwnHolds, Smooth, learn, Distinct, init_sub-Learnt}

-- What msgrcv gives for one round. `returned` is what the caller finds where subscriber_process returns
-- nothing.
pub record Reception : Type 0 where
  pub received : ℤ
  pub interrupted : Bool
  pub text : Bytes
  pub returned : ℤ

abbrev pub result_of : ℤ → Option ℤ → ℤ
result_of returned none = returned
result_of returned (some z) = z

-- The rounds up to the end of the loop: how many there were.
unfoldable pub sub_loop : List Reception → Run ℕ
sub_loop [] = ok 0
sub_loop (r ∷ rs) = do
  result ← subscriber_process r.received r.interrupted r.text
  let rest = (do n ← sub_loop rs; ok (suc n))
  if result_of r.returned result ==ℤ negsuc 0 then ok 1 else rest

-- The texts that are sent, from the first to the last. The list on the stack is an argument.
unfoldable pub sub_main :
    Bool → Own → List Draw → List Reception → ℤ → (ℕ → Sending) → Run (List Bytes)
sub_main found own draws rs pid answers =
    if found
    then (do
      b ← init_sub_for_broker own draws
      n ← sub_loop rs
      e ← unsub_for_broker b.own pid answers
      ok (b.sent ++ e.sent))
    else ok []

-- One round of the publisher.
pub record Issue : Type 0 where
  pub generated : Generated
  pub taken : Bool

unfoldable pub pub_loop : List Issue → List Bytes
pub_loop [] = []
pub_loop (i ∷ is) = publish i.generated i.taken ++ pub_loop is

unfoldable pub pub_main : Bool → List Issue → List Bytes
unfolding pub_loop
pub_main found is = if found then pub_loop is else []

abbrev pub unsub_text : ℤ → Bytes → Bytes
unsub_text pid topic = message_text (utf8 "unsubscribe") pid topic []

-- The message about each topic fits its array.
abbrev pub AllFit : ℤ → List Bytes → Type 0
AllFit pid [] = Unit {0}
AllFit pid (t ∷ ts) = (length (unsub_text pid t) < max_text_size) × AllFit pid ts

abbrev pub AllDrawnFit : ℤ → List Draw → Type 0
AllDrawnFit pid [] = Unit {0}
AllDrawnFit pid (d ∷ ds) =
    (length (unsub_text pid d.generated.topic) < max_text_size) × AllDrawnFit pid ds

AllFit-snoc :
    (pid : ℤ) (ts : List Bytes) (t : Bytes)
    → AllFit pid ts
    → length (unsub_text pid t) < max_text_size
    → AllFit pid (ts ++ t ∷ [])
AllFit-snoc pid [] t h k = (k, tt)
AllFit-snoc pid (u ∷ us) t h k = (h.0, AllFit-snoc pid us t h.1 k)

learn-AllFit :
    (pid : ℤ) (ts : List Bytes) (ds : List Draw)
    → AllFit pid ts
    → AllDrawnFit pid ds
    → AllFit pid (learn ts ds).0
learn-AllFit pid ts [] h k = h
learn-AllFit pid ts (d ∷ ds) h k = elim (Bool-cases (wants d.generated.topic ts)) [
  | inl known ↦ rw known (learn-AllFit pid ts ds h k.1)
  | inr fresh ↦ rw fresh (
      learn-AllFit pid (ts ++ d.generated.topic ∷ []) ds
        (AllFit-snoc pid ts d.generated.topic h k.0) k.1)
]

generate-fits :
    (pid : ℤ) (topic : Bytes)
    → length (unsub_text pid topic) < max_text_size
    → generate_unsub_messege pid topic ≡ ok (unsub_text pid topic)
unfolding generate_unsub_messege
generate-fits pid topic h =
    let t : ltb (length (unsub_text pid topic)) max_text_size ≡ true = ground (arith, h) in
    rw t refl

-- The walk over a list in order, when the queue takes every message.
unsub_loop-all :
    (fuel k : ℕ) (h : Store Bytes) (pid : ℤ) (ts : Cells Bytes)
    → Chain h ts
    → length ts < fuel
    → AllFit pid (values ts)
    → unsub_loop fuel h pid (λ i. accepted) k (first ts)
      ≡ ok (record { sent = map (unsub_text pid) (values ts); result = none })
unfolding unsub_loop
unsub_loop-all zero k h pid ts c more f = absurd (omega arith)
unsub_loop-all (suc fuel) k h pid [] c more f = refl
unsub_loop-all (suc fuel) k h pid ((p, t) ∷ ts) c more f =
    let full : (p == null) ≡ false = not_null p c.0 in
    let ih = unsub_loop-all fuel (suc k) h pid ts c.3 (omega arith) f.1 in
    rw (full, load-some h p (node t (first ts)) c.0 c.1, generate-fits pid t f.0, ih) refl

unsub_for_broker-all :
    (own : Own) (pid : ℤ) (ts : Cells Bytes)
    → OwnHolds own ts
    → AllFit pid (values ts)
    → unsub_for_broker own pid (λ i. accepted)
      ≡ ok (record { sent = map (unsub_text pid) (values ts); result = none })
unfolding unsub_for_broker
unsub_for_broker-all own pid ts h f =
    ap (λ q. unsub_loop (suc own.nodes) own.topics pid (λ i. accepted) 0 q.head) h.list
    ∙ unsub_loop-all (suc own.nodes) 0 own.topics pid ts h.chain (omega (arith, h.count)) f

-- A subscriber whose list is in order at first, with no topic twice, finds the queue; malloc gives new
-- nodes, each round draws a topic and a text, the queue takes every message, the message about each
-- topic fits its array, and the messages that come let the loop end. Then it sends, in this order, the
-- drawn text for each topic that it had not yet, and at the end the message that gives up a topic
-- just once for each topic that it then has.
pub sub_main-gives_up :
    (own : Own) (ts : Cells Bytes) (ds : List Draw) (rs : List Reception) (n : ℕ) (pid : ℤ)
    → OwnHolds own ts
    → Distinct (values ts)
    → Smooth own.topics ds
    → AllFit pid (values ts)
    → AllDrawnFit pid ds
    → sub_loop rs ≡ ok n
    → let l = learn (values ts) ds in
      (sub_main true own ds rs pid (λ i. accepted) ≡ ok (l.1 ++ map (unsub_text pid) l.0))
      × Distinct l.0
unfolding sub_main
sub_main-gives_up own ts ds rs n pid h t s f g e =
    let l = init_sub-Learnt own ts ds h t s in
    let fits : AllFit pid (values l.topics) = rw l.learnt (learn-AllFit pid (values ts) ds f g) in
    (
      rw (l.run, e, unsub_for_broker-all l.after pid l.topics l.holds fits)
          (ap (λ us. ok ((learn (values ts) ds).1 ++ map (unsub_text pid) us)) l.learnt),
      rw (← l.learnt) l.distinct,
    )
