-- ===== src/Broker/Topics.antt =====
-- The chains of topics when one subscriber of 02 gets one more, and add_topic on the lists.
use eltex_modul.Common.{
  ℕ, suc, ◌≡◌, ◌≢◌, refl, sym, ◌∙◌, inl, inr, true, false, none, some, List, [], ◌∷◌, ◌++◌, ◌==◌,
  arith, length, length-append, Bool-cases,
}
use eltex_modul.Common.Int.{ℤ, ◌==ℤ◌}
use eltex_modul.Common.Text.{Bytes}
use eltex_modul.Broker.Memory.{ok, Ptr, null, Store, Queue, node, write, append}
use eltex_modul.Broker.Chain.{
  Cells, last, queue_of, has, has-append, Chain, not_null, frame, has_of_none, load-some,
  write_self, write_other, has-ne,
}
use eltex_modul.Broker.Append.{append-Appended}
use eltex_modul.Broker.Process.{World, add_topic, init_topic, topic_name}
use eltex_modul.Broker.Book.{View, cells, entries, in_any, Apart, Topics, Bounded, Holds, is_known}
use eltex_modul.Broker.Naming.{
  picked, behind, name_for, in_any-picked, in_any-name_for, picked-Picked, cells-named,
  first-name_for,
}
use eltex_modul.Broker.Joining.{Bounded-mono}

Topics-frame :
    (h g : Store Bytes) (vs : List View)
    → Topics h vs
    → ((b : Ptr) → in_any b vs ≡ true → g b ≡ h b)
    → Topics g vs
Topics-frame h g [] t same = tt
Topics-frame h g (v ∷ vs) t same = (
  frame h g v.topics t.0 (λ b i. same b (ground (arith, i))),
  t.1,
  Topics-frame h g vs t.2 (λ b i. same b (ground (arith, i))),
)

in_any-ne :
    (a b : Ptr) (vs : List View) → in_any a vs ≡ false → in_any b vs ≡ true → (b == a) ≡ false
in_any-ne a b [] out i = cc
in_any-ne a b (v ∷ vs) out i = ground (arith, has-ne a b v.topics, in_any-ne a b vs)

-- Where the chains of topics lie after the change: that of the picked subscriber has the new node, no
-- node but its own has changed.
Topics-named :
    (h g : Store Bytes) (pid : ℤ) (a : Ptr) (t : Bytes) (vs : List View)
    → Topics h vs
    → is_known pid (entries vs) ≡ true
    → in_any a vs ≡ false
    → Chain g ((picked pid vs).topics ++ (a, t) ∷ [])
    → ((b : Ptr) → (b == a) ≡ false → has b (picked pid vs).topics ≡ false → g b ≡ h b)
    → Topics g (name_for pid (a, t) vs)
unfolding is_known
Topics-named h g pid a t [] top k out c same = cc
Topics-named h g pid a t (v ∷ vs) top k out c same = elim (Bool-cases (v.pid ==ℤ pid)) [
  | inl e ↦
      let c' : Chain g (v.topics ++ (a, t) ∷ []) = rw e at c in
      let same' : ((b : Ptr) → (b == a) ≡ false → has b v.topics ≡ false → g b ≡ h b) =
        rw e at same in
      let tail_out : in_any a vs ≡ false = ground (arith, out) in
      rw e (
        c',
        (λ b i. here_or_new b v vs tail_out top.1 i),
        Topics-frame h g vs top.2
            (λ b i. same' b (in_any-ne a b vs tail_out i) (ground (arith, top.1 b))),
      )
  | inr e ↦
      let c' : Chain g ((picked pid vs).topics ++ (a, t) ∷ []) = rw e at c in
      let same' : ((b : Ptr)
          → (b == a) ≡ false
          → has b (picked pid vs).topics ≡ false
          → g b ≡ h b) =
        rw e at same in
      let own_out : has a v.topics ≡ false = ground (arith, out) in
      let away = λ (b : Ptr) (i : has b v.topics ≡ true). swap a b v.topics own_out i in
      rw e (
        frame h g v.topics top.0 (λ b i. same' b (away b i) (in_any-picked b pid vs (top.1 b i))),
        (λ b i. in_any-name_for b pid a t vs (top.1 b i) (away b i)),
        Topics-named h g pid a t vs top.2 (ground (arith, k, e)) (ground (arith, out)) c' same',
      )
]
  where
    swap : (a b : Ptr) (ts : Cells Bytes) → has a ts ≡ false → has b ts ≡ true → (b == a) ≡ false
    swap a b ts out i = ground (arith, has-ne a b ts out i)

    here_or_new :
        (b : Ptr) (v : View) (vs : List View)
        → in_any a vs ≡ false
        → Apart v.topics vs
        → has b (v.topics ++ (a, t) ∷ []) ≡ true
        → in_any b vs ≡ false
    here_or_new b v vs out apart i = elim (Bool-cases (has b v.topics)) [
      | inl j ↦ apart b j
      | inr j ↦ ground (arith, has-append b v.topics ((a, t) ∷ []), i, j, out)
    ]

in_any_of_none :
    (h : Store Bytes) (a : Ptr) (vs : List View) → Topics h vs → h a ≡ none → in_any a vs ≡ false
in_any_of_none h a [] t e = refl
in_any_of_none h a (v ∷ vs) t e =
    ground (arith, has_of_none h a v.topics t.0 e, in_any_of_none h a vs t.2 e)

last-name_for :
    (pid : ℤ) (t : Ptr × Bytes) (vs : List View)
    → last (cells (name_for pid t vs)) ≡ last (cells vs)
last-name_for pid t [] = refl
last-name_for pid t (v ∷ []) = ground arith
last-name_for pid t (v ∷ u ∷ vs) = elim (Bool-cases (v.pid ==ℤ pid)) [
  | inl e ↦ rw e refl
  | inr e ↦ rw e (last-tail v u vs ∙ last-name_for pid t (u ∷ vs))
]
  where
    last-tail :
        (v u : View) (vs : List View)
        → last (cells (v ∷ name_for pid t (u ∷ vs))) ≡ last (cells (name_for pid t (u ∷ vs)))
    last-tail v u vs = elim (Bool-cases (u.pid ==ℤ pid)) [ inl e ↦ rw e refl | inr e ↦ rw e refl ]

length-name_for :
    (pid : ℤ) (t : Ptr × Bytes) (vs : List View)
    → length (cells (name_for pid t vs)) ≡ length (cells vs)
length-name_for pid t [] = refl
length-name_for pid t (v ∷ vs) = ground (arith, length-name_for pid t vs)

Bounded-name_for :
    (n : ℕ) (pid : ℤ) (t : Ptr × Bytes) (vs : List View)
    → Bounded n vs
    → Bounded (suc n) (name_for pid t vs)
Bounded-name_for n pid t [] b = tt
Bounded-name_for n pid t (v ∷ vs) b = elim (Bool-cases (v.pid ==ℤ pid)) [
  | inl e ↦ rw e (
    omega (arith, b.0, length-append v.topics (t ∷ [])),
    Bounded-mono n (suc n) vs (omega arith) b.1,
  )
  | inr e ↦ rw e (omega (arith, b.0), Bounded-name_for n pid t vs b.1)
]

add_topic-run :
    (w : World) (v : View) (r a : Ptr) (n : ℕ) (h' g : Store Bytes) (q : Queue)
    → v.at ≢ null
    → a ≢ null
    → w.heap.subs v.at ≡ some (node (record { pid = v.pid; topics = queue_of v.topics }) r)
    → append h' (queue_of v.topics) a ≡ ok (g, q)
    → add_topic (record w { heap = record w.heap { topics = h'; nodes = n } }) v.at a
      ≡ ok (record w {
        heap = record w.heap {
          topics = g;
          subs = write w.heap.subs v.at (node (record { pid = v.pid; topics = q }) r);
          nodes = n;
        };
      })
unfolding add_topic
add_topic-run w v r a n h' g q ne ane e f =
    rw (not_null v.at ne, not_null a ane)
      (rw
        (load-some w.heap.subs v.at (node (record { pid = v.pid; topics = queue_of v.topics }) r) ne
          e)
        (rw f refl))

-- A new topic goes behind those of the first subscriber with the pid.
pub add_topic-Holds :
    (w : World) (vs : List View) (ps : Cells ℤ) (pid : ℤ) (a : Ptr) (name : Bytes)
    → Holds w vs ps
    → is_known pid (entries vs) ≡ true
    → a ≢ null
    → w.heap.topics a ≡ none
    → (w' : World) × (add_topic
          (record w {
            heap = record w.heap {
              topics = init_topic w.heap.topics a name;
              nodes = suc w.heap.nodes;
            };
          })
          (picked pid vs).at
          a
        ≡ ok w')
      × Holds w' (name_for pid (a, topic_name name) vs) ps
unfolding init_topic
add_topic-Holds w vs ps pid a name h known ne free =
    let v = picked pid vs in
    let t = topic_name name in
    let pk =
      picked-Picked w.heap.subs w.heap.topics w.heap.nodes pid vs known h.subs h.topics
        h.topic_count in
    let h' = write w.heap.topics a (node t null) in
    let other = λ (b : Ptr) (i : (b == a) ≡ false). write_other w.heap.topics a (node t null) b i in
    let out_any = in_any_of_none w.heap.topics a vs h.topics free in
    let out = in_any-picked a pid vs out_any in
    let c' =
      frame w.heap.topics h' v.topics pk.chain
        (λ b i. other b (ground (arith, has-ne a b v.topics out i))) in
    let (g, e, d) =
      append-Appended h' v.topics a t null c' ne (write_self w.heap.topics a (node t null)) out in
    (
      record w {
        heap = record w.heap {
          topics = g;
          subs = write w.heap.subs v.at (
              node (record { pid = v.pid; topics = queue_of (v.topics ++ (a, t) ∷ []) })
                (behind pid vs));
          nodes = suc w.heap.nodes;
        };
      },
      add_topic-run w v (behind pid vs) a (suc w.heap.nodes) h' g
          (queue_of (v.topics ++ (a, t) ∷ [])) pk.ne ne pk.holds e,
      record {
        sub_list = h.sub_list ∙ (λ i. record {
          head = sym (first-name_for pid (a, t) vs) i;
          tail = sym (last-name_for pid (a, t) vs) i;
        });
        pub_list = h.pub_list;
        subs = cells-named w.heap.subs pid a t vs known h.subs;
        pubs = h.pubs;
        topics =
            Topics-named w.heap.topics g pid a t vs h.topics known out_any d.chain
              (λ b f i. d.same b f i ∙ other b f);
        sub_count = omega (arith, h.sub_count, length-name_for pid (a, t) vs);
        pub_count = omega (arith, h.pub_count);
        topic_count = Bounded-name_for w.heap.nodes pid (a, t) vs h.topic_count;
      },
    )
