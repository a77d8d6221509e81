-- ===== src/Broker/Sending.antt =====
-- The walks of broker_process through the lists of subscribers and publishers, and what it sends.
use eltex_modul.Common.{
  ℕ, zero, suc, ◌≤◌, ◌<◌, ◌≡◌, refl, ap, ◌∙◌, inl, inr, Bool, not, List, [], ◌∷◌, ◌==◌, arith,
  length, Bool-cases,
}
use eltex_modul.Common.Int.{ℤ, ◌==ℤ◌}
use eltex_modul.Common.Text.{Bytes, str_eq}
use eltex_modul.Broker.Memory.{ok, null, Store, node, find}
use eltex_modul.Broker.Chain.{Cells, first, queue_of, values, Chain, not_null, load-some}
use eltex_modul.Broker.Append.{search, find-search}
use eltex_modul.Broker.Process.{
  Subscriber, World, Heap, has_pid, get_subscriber_by_broker, is_subscriber_in_list,
  is_publiser_in_list, has_topic, Sent, send_loop,
}
use eltex_modul.Broker.Book.{
  View, cells, entries, is_known, is_publisher, wants, audience, dispatch, Topics, Bounded, Holds,
}

search-is_known :
    (h : Store Subscriber) (pid : ℤ) (vs : List View)
    → Chain h (cells vs)
    → not (search (has_pid pid) (cells vs) == null) ≡ is_known pid (entries vs)
unfolding is_known
search-is_known h pid [] c = ground arith
search-is_known h pid (v ∷ vs) c = ground (arith, c.0, search-is_known h pid vs c.3)

search-is_publisher :
    (h : Store ℤ) (pid : ℤ) (ps : Cells ℤ)
    → Chain h ps
    → not (search (λ q. q ==ℤ pid) ps == null) ≡ is_publisher pid (values ps)
unfolding is_publisher
search-is_publisher h pid [] c = ground arith
search-is_publisher h pid ((p, q) ∷ ps) c = ground (arith, c.0, search-is_publisher h pid ps c.3)

search-wants :
    (h : Store Bytes) (topic : Bytes) (ts : Cells Bytes)
    → Chain h ts
    → not (search (λ t. str_eq t topic) ts == null) ≡ wants topic (values ts)
unfolding wants
search-wants h topic [] c = ground arith
search-wants h topic ((p, t) ∷ ts) c = ground (arith, c.0, search-wants h topic ts c.3)

module _ (w : World) (vs : List View) (ps : Cells ℤ) (h : Holds w vs ps) where
  pub get_subscriber-search :
      (pid : ℤ) → get_subscriber_by_broker w pid ≡ ok (search (has_pid pid) (cells vs))
  unfolding get_subscriber_by_broker
  get_subscriber-search pid =
      ap (λ q. find (suc w.heap.nodes) w.heap.subs (has_pid pid) q.head) h.sub_list
      ∙ find-search (suc w.heap.nodes) w.heap.subs (has_pid pid) (cells vs) h.subs
          (omega (arith, h.sub_count))

  pub is_subscriber-is_known :
      (pid : ℤ) → is_subscriber_in_list w pid ≡ ok (is_known pid (entries vs))
  unfolding is_subscriber_in_list
  is_subscriber-is_known pid =
      rw (get_subscriber-search pid) (ap ok (search-is_known w.heap.subs pid vs h.subs))

  pub is_publiser-is_publisher :
      (pid : ℤ) → is_publiser_in_list w pid ≡ ok (is_publisher pid (values ps))
  unfolding is_publiser_in_list
  is_publiser-is_publisher pid =
      let walk =
        ap (λ q. find (suc w.heap.nodes) w.heap.pubs (λ q'. q' ==ℤ pid) q.head) h.pub_list
        ∙ find-search (suc w.heap.nodes) w.heap.pubs (λ q. q ==ℤ pid) ps h.pubs
            (omega (arith, h.pub_count)) in
      rw walk (ap ok (search-is_publisher w.heap.pubs pid ps h.pubs))

has_topic-wants :
    (h : Heap) (topic : Bytes) (ts : Cells Bytes)
    → Chain h.topics ts
    → length ts ≤ h.nodes
    → has_topic h topic (queue_of ts) ≡ ok (wants topic (values ts))
unfolding has_topic
has_topic-wants h topic ts c n =
    rw (find-search (suc h.nodes) h.topics (λ t. str_eq t topic) ts c (omega arith))
      (ap ok (search-wants h.topics topic ts c))

abbrev pub sent_of : List (ℤ × Bytes) × Bool → Sent
sent_of r = record { messages = r.0; stopped = r.1 }

-- The loop sends what the book says, and ends within its fuel.
pub send_loop-dispatch :
    (fuel : ℕ) (h : Heap) (accepts : ℕ → Bool) (k : ℕ) (topic text : Bytes) (vs : List View)
    → Chain h.subs (cells vs)
    → Topics h.topics vs
    → Bounded h.nodes vs
    → length (cells vs) < fuel
    → send_loop fuel h accepts k topic text (first (cells vs))
      ≡ ok (sent_of (dispatch accepts k text (audience topic (entries vs))))
unfolding send_loop dispatch audience
send_loop-dispatch zero h accepts k topic text vs c t b more = absurd (omega arith)
send_loop-dispatch (suc fuel) h accepts k topic text [] c t b more = refl
send_loop-dispatch (suc fuel) h accepts k topic text (v ∷ vs) c t b more =
    let full = not_null v.at c.0 in
    let got =
      load-some h.subs v.at
        (node (record { pid = v.pid; topics = queue_of v.topics }) (first (cells vs))) c.0 c.1 in
    let asked = has_topic-wants h topic v.topics t.0 b.0 in
    let ih =
      λ (j : ℕ). send_loop-dispatch fuel h accepts j topic text vs c.3 t.2 b.1 (omega arith) in
    rw (full, got)
      (rw asked (elim (Bool-cases (wants topic (values v.topics))) [
        | inr f ↦ rw f (ih k)
        | inl f ↦
            rw f (elim (Bool-cases (accepts k)) [
              | inl g ↦ rw (g, ih (suc k)) refl
              | inr g ↦ rw g refl
            ])
      ]))
