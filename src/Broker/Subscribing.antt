-- ===== src/Broker/Subscribing.antt =====
-- The command "subscribe" of broker_process in 02/src/broker.c.
use eltex_modul.Common.{
  ◌≡◌, ◌≢◌, refl, ap, ◌∙◌, inl, inr, true, none, some, List, [], ◌∷◌, ◌++◌, ◌==◌, arith, Bool-cases,
}
use eltex_modul.Common.Int.{==ℤ_refl, ℤ, negsuc}
use eltex_modul.Broker.Memory.{ok, ◌>>=◌, Ptr, null}
use eltex_modul.Broker.Chain.{Cells, values, not_null}
use eltex_modul.Broker.Header.{Control}
use eltex_modul.Broker.Process.{
  World, outcome, with_subscriber, subscribe_to, add_topic, topic_name,
}
use eltex_modul.Broker.Book.{
  View, entries, Holds, book_of, unchanged, is_null, is_known, take_subscription, subscribed,
}
use eltex_modul.Broker.Sending.{get_subscriber-search}
use eltex_modul.Broker.Joining.{
  Free, with_subscriber-known, with_subscriber-none, with_subscriber-new, entries-snoc, new_view,
}
use eltex_modul.Broker.Naming.{picked, name_for, entries-name_for, search-picked, picked-Picked}
use eltex_modul.Broker.Topics.{add_topic-Holds}
use eltex_modul.Broker.Publishing.{Refined}

subscribe_to-none :
    (p : Ptr) (c : Control) (w : World)
    → subscribe_to p c w none ≡ ok (outcome w [] (some (negsuc 4)))
unfolding subscribe_to
subscribe_to-none p c w = refl

add_topic-null : (w : World) (sub : Ptr) → sub ≢ null → add_topic w sub null ≡ ok w
unfolding add_topic
add_topic-null w sub ne = rw (not_null sub ne) refl

-- The topic of a subscriber that is in the list.
subscribe_to-Refined :
    (old w : World) (vs : List View) (ps : Cells ℤ) (p : Ptr) (c : Control)
    → Holds w vs ps
    → is_known c.sender_pid (entries vs) ≡ true
    → Free w.heap.topics p
    → Refined (subscribe_to p c old (some w)) (
        unchanged
          (record { subscribers = subscribed (is_null p) c (entries vs); publishers = values ps })
          none)
unfolding subscribe_to
subscribe_to-Refined old w vs ps p c h known free =
    let at = get_subscriber-search w vs ps h c.sender_pid ∙ ap ok (search-picked c.sender_pid vs) in
    let pk =
      picked-Picked w.heap.subs w.heap.topics w.heap.nodes c.sender_pid vs known h.subs h.topics
        h.topic_count in
    elim (Bool-cases (p == null)) [
      | inl e ↦
          let is : p ≡ null = ground (arith, e) in
          rw (at, is)
            (record {
              world = w;
              views = vs;
              pubs = ps;
              run = rw (add_topic-null w (picked c.sender_pid vs).at pk.ne) refl;
              holds = h;
              book = refl;
            })
      | inr e ↦
          let ne : p ≢ null = ground (arith, e) in
          let (w', f, h') = add_topic-Holds w vs ps c.sender_pid p c.topic h known ne (free ne) in
          rw (at, e)
            (record {
              world = w';
              views = name_for c.sender_pid (p, topic_name c.topic) vs;
              pubs = ps;
              run = rw f refl;
              holds = h';
              book =
                  ap (λ es. record { subscribers = es; publishers = values ps })
                    (entries-name_for c.sender_pid p (topic_name c.topic) vs);
            })
    ]

is_known-snoc :
    (pid : ℤ) (p : Ptr) (vs : List View) → is_known pid (entries (vs ++ new_view p pid ∷ [])) ≡ true
unfolding is_known
is_known-snoc pid p [] = ground (arith, ==ℤ_refl pid)
is_known-snoc pid p (v ∷ vs) = ground (arith, is_known-snoc pid p vs)

pub subscribe-Refined :
    (w : World) (vs : List View) (ps : Cells ℤ) (p q : Ptr) (c : Control)
    → Holds w vs ps
    → Free w.heap.subs p
    → Free w.heap.topics q
    → Refined
        (with_subscriber w p c.sender_pid >>= subscribe_to q c w)
        (take_subscription (is_null p) (is_null q) c (book_of vs ps))
unfolding take_subscription
subscribe-Refined w vs ps p q c h free_sub free_topic =
    elim (Bool-cases (is_known c.sender_pid (entries vs))) [
      | inl known ↦
          rw (with_subscriber-known w vs ps h c.sender_pid p known, known)
            (subscribe_to-Refined w w vs ps q c h known free_topic)
      | inr new ↦ elim (Bool-cases (p == null)) [
        | inl e ↦
            rw (with_subscriber-none w vs ps h c.sender_pid p new e, new, e)
              (record {
                world = w;
                views = vs;
                pubs = ps;
                run = subscribe_to-none q c w;
                holds = h;
                book = refl;
              })
        | inr e ↦
            let ne : p ≢ null = ground (arith, e) in
            let (w', f, h', same) =
              with_subscriber-new w vs ps h c.sender_pid p new ne (free_sub ne) in
            let vs' = vs ++ new_view p c.sender_pid ∷ [] in
            let r =
              subscribe_to-Refined w w' vs' ps q c h' (is_known-snoc c.sender_pid p vs)
                (λ k. ap (λ t. t q) same ∙ free_topic k) in
            rw (f, new, e, ← entries-snoc vs (new_view p c.sender_pid)) r
      ]
    ]
