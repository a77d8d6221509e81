-- ===== src/Broker/Learning.antt =====
-- The topics that a subscriber of 02/src/main_sub.c draws and asks for.
use eltex_modul.Common.{
  ℕ, zero, suc, ◌+◌, ◌≤◌, ◌<◌, ◌≡◌, ◌≢◌, refl, sym, ap, ◌∙◌, inl, inr, Bool, true, false, ◌||◌,
  none, List, [], ◌∷◌, ◌++◌, ◌==◌, if◌then◌else◌, arith, length, length-append, Bool-cases,
}
use eltex_modul.Common.Int.{pos}
use eltex_modul.Common.Text.{Bytes, str_eq, str_eq_iff}
use eltex_modul.Broker.Memory.{ok, Ptr, null, Store, node, write, append}
use eltex_modul.Broker.Chain.{
  Cells, first, queue_of, values, values-append, Chain, not_null, load-some, frame, has_of_none,
  write_self, write_other, has-ne,
}
use eltex_modul.Broker.Append.{append-Appended}
use eltex_modul.Broker.Book.{wants}
use eltex_modul.Broker.Client.{Own, Draw, has_own, seek, add_own, init_sub_for_broker}

-- The list of the subscriber in its memory.
pub record OwnHolds (own : Own) (ts : Cells Bytes) : Type 0 where
  pub list : own.list ≡ queue_of ts
  pub chain : Chain own.topics ts
  pub count : length ts ≤ own.nodes

abbrev pub drawn_at : Ptr → List Draw → Bool
drawn_at p [] = false
drawn_at p (d ∷ ds) = (d.for_topic == p) || drawn_at p ds

-- malloc gives a new node each time, every call succeeds and the queue takes every message.
abbrev pub Smooth : Store Bytes → List Draw → Type 0
Smooth h [] = Unit {0}
Smooth h (d ∷ ds) =
    (d.for_topic ≢ null)
    × (h d.for_topic ≡ none)
    × (drawn_at d.for_topic ds ≡ false)
    × (d.generated.code ≡ pos 0)
    × (d.taken ≡ true)
    × Smooth h ds

-- The topics without those that are there already, and the texts for the new ones.
abbrev pub learn : List Bytes → List Draw → List Bytes × List Bytes
learn ts [] = (ts, [])
learn ts (d ∷ ds) = if wants d.generated.topic ts then learn ts ds else (
  (learn (ts ++ d.generated.topic ∷ []) ds).0,
  d.generated.text ∷ (learn (ts ++ d.generated.topic ∷ []) ds).1,
)

or_swap : (a b c : Bool) → (a || (b || c)) ≡ ((b || a) || c)
or_swap a b c = ground arith

seek-wants :
    (fuel : ℕ) (h : Store Bytes) (topic : Bytes) (ts : Cells Bytes) (skip : Bool)
    → Chain h ts
    → length ts < fuel
    → seek fuel h topic (first ts) skip ≡ ok (wants topic (values ts) || skip)
unfolding seek wants
seek-wants zero h topic ts skip c more = absurd (omega arith)
seek-wants (suc fuel) h topic [] skip c more = refl
seek-wants (suc fuel) h topic ((p, t) ∷ ts) skip c more =
    let full : (p == null) ≡ false = not_null p c.0 in
    let ih = seek-wants fuel h topic ts (str_eq t topic || skip) c.3 (omega arith) in
    rw (full, load-some h p (node t (first ts)) c.0 c.1, ih)
      (ap ok (or_swap (wants topic (values ts)) (str_eq t topic) skip))

has_own-wants :
    (own : Own) (ts : Cells Bytes) (topic : Bytes)
    → OwnHolds own ts
    → has_own own topic ≡ ok (wants topic (values ts))
unfolding has_own
has_own-wants own ts topic h =
    ap (λ q. seek (suc own.nodes) own.topics topic q.head false) h.list
    ∙ seek-wants (suc own.nodes) own.topics topic ts false h.chain (omega (arith, h.count))
    ∙ ap ok (ground arith)

-- One topic more.
record Added (own : Own) (ts : Cells Bytes) (p : Ptr) (topic : Bytes) : Type 0 where
  after : Own
  run : add_own own p topic ≡ ok after
  holds : OwnHolds after (ts ++ (p, topic) ∷ [])
  same : (q : Ptr) → (q == p) ≡ false → own.topics q ≡ none → after.topics q ≡ none

add_own-Added :
    (own : Own) (ts : Cells Bytes) (p : Ptr) (topic : Bytes)
    → OwnHolds own ts
    → p ≢ null
    → own.topics p ≡ none
    → Added own ts p topic
unfolding add_own
add_own-Added own ts p topic h ne free =
    let out = has_of_none own.topics p ts h.chain free in
    let h' = write own.topics p (node topic null) in
    let other =
      λ (b : Ptr) (i : (b == p) ≡ false). write_other own.topics p (node topic null) b i in
    let c' =
      frame own.topics h' ts h.chain (λ b i. other b (ground (arith, has-ne p b ts out i))) in
    let (g, e, d) =
      append-Appended h' ts p topic null c' ne (write_self own.topics p (node topic null)) out in
    record {
      after = record { topics = g; list = queue_of (ts ++ (p, topic) ∷ []); nodes = suc own.nodes };
      run = rw (ap (λ q. append h' q p) h.list ∙ e) refl;
      holds = record {
        list = refl;
        chain = d.chain;
        count = omega (arith, h.count, length-append ts ((p, topic) ∷ []));
      };
      same = λ q i k. d.same q i (has_of_none own.topics q ts h.chain k) ∙ other q i ∙ k;
    }

Smooth-after :
    (h g : Store Bytes) (p : Ptr) (ds : List Draw)
    → drawn_at p ds ≡ false
    → ((q : Ptr) → (q == p) ≡ false → h q ≡ none → g q ≡ none)
    → Smooth h ds
    → Smooth g ds
Smooth-after h g p [] out same s = tt
Smooth-after h g p (d ∷ ds) out same s = (
  s.0,
  same d.for_topic (ground (arith, out)) s.1,
  s.2,
  s.3,
  s.4,
  Smooth-after h g p ds (ground (arith, out)) same s.5,
)

-- No topic stands twice.
abbrev pub Distinct : List Bytes → Type 0
Distinct [] = Unit {0}
Distinct (t ∷ ts) = (wants t ts ≡ false) × Distinct ts

wants-snoc :
    (topic t : Bytes) (ts : List Bytes)
    → wants topic (ts ++ t ∷ []) ≡ (wants topic ts || str_eq t topic)
unfolding wants
wants-snoc topic t [] = ground arith
wants-snoc topic t (u ∷ ts) = ground (arith, wants-snoc topic t ts)

str_eq-sym : (s t : Bytes) → str_eq s t ≡ false → str_eq t s ≡ false
str_eq-sym s t e = elim (Bool-cases (str_eq t s)) [
  | inl k ↦ absurd (cc ((str_eq_iff s t).1 (sym ((str_eq_iff t s).0 k)), e))
  | inr k ↦ k
]

Distinct-snoc :
    (t : Bytes) (ts : List Bytes) → Distinct ts → wants t ts ≡ false → Distinct (ts ++ t ∷ [])
unfolding wants
Distinct-snoc t [] d out = (refl, tt)
Distinct-snoc t (u ∷ ts) d out = (
  ground (arith, d.0, wants-snoc u t ts, str_eq-sym u t, out),
  Distinct-snoc t ts d.1 (ground (arith, out)),
)

-- The run of init_sub_for_broker.
pub record Learnt (own : Own) (ts : Cells Bytes) (ds : List Draw) : Type 0 where
  pub after : Own
  pub topics : Cells Bytes
  pub run :
      init_sub_for_broker own ds
      ≡ ok (record { own = after; sent = (learn (values ts) ds).1; result = pos 0 })
  pub holds : OwnHolds after topics
  pub learnt : values topics ≡ (learn (values ts) ds).0
  pub distinct : Distinct (values topics)
  pub one_each : length topics ≡ length ts + length (learn (values ts) ds).1

known_topic :
    (own : Own) (ts : Cells Bytes) (d : Draw) (ds : List Draw)
    → OwnHolds own ts
    → d.generated.code ≡ pos 0
    → wants d.generated.topic (values ts) ≡ true
    → Learnt own ts ds
    → Learnt own ts (d ∷ ds)
unfolding init_sub_for_broker
known_topic own ts d ds h fine k l = record {
  after = l.after;
  topics = l.topics;
  run = rw (fine, has_own-wants own ts d.generated.topic h, k) l.run;
  holds = l.holds;
  learnt = rw k l.learnt;
  distinct = l.distinct;
  one_each = rw k l.one_each;
}

counted :
    (ts : Cells Bytes) (c : Ptr × Bytes) (us vs : List Bytes)
    → us ≡ vs
    → length (ts ++ c ∷ []) + length us ≡ length ts + suc (length vs)
counted ts c us vs e = omega (arith, length-append ts (c ∷ []), ap length e)

new_topic :
    (own : Own) (ts : Cells Bytes) (d : Draw) (ds : List Draw)
    → OwnHolds own ts
    → d.generated.code ≡ pos 0
    → d.taken ≡ true
    → wants d.generated.topic (values ts) ≡ false
    → (a : Added own ts d.for_topic d.generated.topic)
    → Learnt a.after (ts ++ (d.for_topic, d.generated.topic) ∷ []) ds
    → Learnt own ts (d ∷ ds)
unfolding init_sub_for_broker
new_topic own ts d ds h fine taken k a l =
    let more = values-append ts ((d.for_topic, d.generated.topic) ∷ []) in
    record {
      after = l.after;
      topics = l.topics;
      run = rw (fine, has_own-wants own ts d.generated.topic h, k, taken, a.run, l.run, more) refl;
      holds = l.holds;
      learnt = rw k (l.learnt ∙ ap (λ us. (learn us ds).0) more);
      distinct = l.distinct;
      one_each = rw k (
          l.one_each
          ∙ counted ts (d.for_topic, d.generated.topic)
              (learn (values (ts ++ (d.for_topic, d.generated.topic) ∷ [])) ds).1
              (learn (values ts ++ d.generated.topic ∷ []) ds).1 (ap (λ us. (learn us ds).1) more));
    }

-- A subscriber starts, its list in order and with no topic twice. When malloc gives new nodes, each
-- round draws a topic and a text, and the queue takes every message, init_sub_for_broker returns 0 and
-- leaves a list in order: the topics it had, and behind them those drawn that were not there yet, each
-- once. For each of these the text drawn with it is sent, in that order, and no other text.
pub init_sub-Learnt :
    (own : Own) (ts : Cells Bytes) (ds : List Draw)
    → OwnHolds own ts
    → Distinct (values ts)
    → Smooth own.topics ds
    → Learnt own ts ds
unfolding init_sub_for_broker
init_sub-Learnt own ts [] h t s = record {
  after = own;
  topics = ts;
  run = refl;
  holds = h;
  learnt = refl;
  distinct = t;
  one_each = omega arith;
}
init_sub-Learnt own ts (d ∷ ds) h t s = elim (Bool-cases (wants d.generated.topic (values ts))) [
  | inl k ↦ known_topic own ts d ds h s.3 k (init_sub-Learnt own ts ds h t s.5)
  | inr k ↦
      let a = add_own-Added own ts d.for_topic d.generated.topic h s.0 s.1 in
      let more = values-append ts ((d.for_topic, d.generated.topic) ∷ []) in
      let apart : Distinct (values (ts ++ (d.for_topic, d.generated.topic) ∷ [])) =
        rw more (Distinct-snoc d.generated.topic (values ts) t k) in
      new_topic own ts d ds h s.3 s.4 k a (
        init_sub-Learnt a.after (ts ++ (d.for_topic, d.generated.topic) ∷ []) ds a.holds apart
          (Smooth-after own.topics a.after.topics d.for_topic ds s.2 a.same s.5))
]
