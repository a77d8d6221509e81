-- ===== src/Broker/Joining.antt =====
-- New publishers and subscribers in the lists of the broker.
use eltex_modul.Common.{
  ℕ, suc, ◌≤◌, ◌≡◌, ◌≢◌, refl, sym, ap, ◌∙◌, true, false, none, some, List, [], ◌∷◌, ◌++◌, ◌==◌,
  arith, length-append,
}
use eltex_modul.Common.Int.{ℤ}
use eltex_modul.Common.Text.{Bytes}
use eltex_modul.Broker.Memory.{ok, Ptr, null, Store, Queue, node, write, append}
use eltex_modul.Broker.Chain.{
  Cells, queue_of, values, Chain, not_null, frame, has_of_none, write_self, write_other, has-ne,
}
use eltex_modul.Broker.Append.{append-Appended}
use eltex_modul.Broker.Process.{
  World, new_subscriber, init_publisher, init_subscriber, add_publisher, add_subscrider,
  with_publisher, with_subscriber,
}
use eltex_modul.Broker.Book.{
  View, cell, cells, entry, entries, in_any, Topics, Bounded, Holds, is_known, is_publisher,
}
use eltex_modul.Broker.Sending.{is_publiser-is_publisher, is_subscriber-is_known}

-- A node that malloc has just given goes behind the tail.
append-new {ℓ} :
    {A : Type ℓ} (h : Store A) (xs : Cells A) (q : Queue) (p : Ptr) (v : A)
    → Chain h xs
    → q ≡ queue_of xs
    → p ≢ null
    → h p ≡ none
    → (g : Store A) × (append (write h p (node v null)) q p ≡ ok (g, queue_of (xs ++ (p, v) ∷ [])))
      × Chain g (xs ++ (p, v) ∷ [])
append-new h xs q p v c e ne free =
    let out = has_of_none h p xs c free in
    let h' = write h p (node v null) in
    let c' =
      frame h h' xs c
        (λ b i. write_other h p (node v null) b (ground (arith, has-ne p b xs out i))) in
    let (g, f, d) = append-Appended h' xs p v null c' ne (write_self h p (node v null)) out in
    (g, ap (λ r. append h' r p) e ∙ f, d.chain)

pub Bounded-mono : (n m : ℕ) (vs : List View) → n ≤ m → Bounded n vs → Bounded m vs
Bounded-mono n m [] h b = tt
Bounded-mono n m (v ∷ vs) h b = (omega arith, Bounded-mono n m vs h b.1)

-- `malloc` gives NULL or the address of no node.
abbrev pub Free {ℓ} : {A : Type ℓ} → Store A → Ptr → Type ℓ
Free h p = p ≢ null → h p ≡ none

module _ (w : World) (vs : List View) (ps : Cells ℤ) (h : Holds w vs ps) (pid : ℤ) where
  pub with_publisher-known :
      (p : Ptr) → is_publisher pid (values ps) ≡ true → with_publisher w p pid ≡ ok (some w)
  unfolding with_publisher
  with_publisher-known p known = rw (is_publiser-is_publisher w vs ps h pid, known) refl

  pub with_publisher-none :
      (p : Ptr)
      → is_publisher pid (values ps) ≡ false
      → (p == null) ≡ true
      → with_publisher w p pid ≡ ok none
  unfolding with_publisher
  with_publisher-none p new e = rw (is_publiser-is_publisher w vs ps h pid, new) (rw e refl)

  pub with_publisher-new :
      (p : Ptr)
      → is_publisher pid (values ps) ≡ false
      → p ≢ null
      → w.heap.pubs p ≡ none
      → (w' : World) × (with_publisher w p pid ≡ ok (some w')) × Holds w' vs (ps ++ (p, pid) ∷ [])
  unfolding with_publisher add_publisher init_publisher
  with_publisher-new p new ne free =
      let (g, e, c) = append-new w.heap.pubs ps w.broker.pub_list p pid h.pubs h.pub_list ne free in
      (
        record {
          broker = record w.broker { pub_list = queue_of (ps ++ (p, pid) ∷ []) };
          heap = record w.heap { pubs = g; nodes = suc w.heap.nodes };
        },
        rw (is_publiser-is_publisher w vs ps h pid, new) (rw (not_null p ne, e) refl),
        record {
          sub_list = h.sub_list;
          pub_list = refl;
          subs = h.subs;
          pubs = c;
          topics = h.topics;
          sub_count = omega (arith, h.sub_count);
          pub_count = omega (arith, h.pub_count, length-append ps ((p, pid) ∷ []));
          topic_count = Bounded-mono w.heap.nodes (suc w.heap.nodes) vs (omega arith) h.topic_count;
        },
      )

  pub with_subscriber-known :
      (p : Ptr) → is_known pid (entries vs) ≡ true → with_subscriber w p pid ≡ ok (some w)
  unfolding with_subscriber
  with_subscriber-known p known = rw (is_subscriber-is_known w vs ps h pid, known) refl

  pub with_subscriber-none :
      (p : Ptr)
      → is_known pid (entries vs) ≡ false
      → (p == null) ≡ true
      → with_subscriber w p pid ≡ ok none
  unfolding with_subscriber
  with_subscriber-none p new e = rw (is_subscriber-is_known w vs ps h pid, new) (rw e refl)

abbrev pub new_view : Ptr → ℤ → View
new_view p pid = record { at = p; pid = pid; topics = [] }

cells-snoc : (vs : List View) (v : View) → cells (vs ++ v ∷ []) ≡ cells vs ++ cell v ∷ []
cells-snoc [] v = refl
cells-snoc (u ∷ vs) v = ap (λ r. cell u ∷ r) (cells-snoc vs v)

pub entries-snoc : (vs : List View) (v : View) → entries (vs ++ v ∷ []) ≡ entries vs ++ entry v ∷ []
entries-snoc [] v = refl
entries-snoc (u ∷ vs) v = ap (λ r. entry u ∷ r) (entries-snoc vs v)

in_any-snoc :
    (a : Ptr) (vs : List View) (p : Ptr) (pid : ℤ)
    → in_any a (vs ++ new_view p pid ∷ []) ≡ in_any a vs
in_any-snoc a [] p pid = refl
in_any-snoc a (u ∷ vs) p pid = ground (arith, in_any-snoc a vs p pid)

Topics-snoc :
    (h : Store Bytes) (vs : List View) (p : Ptr) (pid : ℤ)
    → Topics h vs
    → Topics h (vs ++ new_view p pid ∷ [])
Topics-snoc h [] p pid t = (tt, λ a i. refl, tt)
Topics-snoc h (u ∷ vs) p pid t =
    (t.0, λ a i. in_any-snoc a vs p pid ∙ t.1 a i, Topics-snoc h vs p pid t.2)

Bounded-snoc :
    (n : ℕ) (vs : List View) (p : Ptr) (pid : ℤ)
    → Bounded n vs
    → Bounded n (vs ++ new_view p pid ∷ [])
Bounded-snoc n [] p pid b = (omega arith, tt)
Bounded-snoc n (u ∷ vs) p pid b = (b.0, Bounded-snoc n vs p pid b.1)

module _ (w : World) (vs : List View) (ps : Cells ℤ) (h : Holds w vs ps) (pid : ℤ) where
  pub with_subscriber-new :
      (p : Ptr)
      → is_known pid (entries vs) ≡ false
      → p ≢ null
      → w.heap.subs p ≡ none
      → (w' : World) × (with_subscriber w p pid ≡ ok (some w'))
        × Holds w' (vs ++ new_view p pid ∷ []) ps
        × (w'.heap.topics ≡ w.heap.topics)
  unfolding with_subscriber add_subscrider init_subscriber
  with_subscriber-new p new ne free =
      let (g, e, c) =
        append-new w.heap.subs (cells vs) w.broker.sub_list p (new_subscriber pid) h.subs h.sub_list
          ne free in
      let split = cells-snoc vs (new_view p pid) in
      (
        record {
          broker = record w.broker { sub_list = queue_of (cells vs ++ cell (new_view p pid) ∷ []) };
          heap = record w.heap { subs = g; nodes = suc w.heap.nodes };
        },
        rw (is_subscriber-is_known w vs ps h pid, new) (rw (not_null p ne, e) refl),
        record {
          sub_list = ap queue_of (sym split);
          pub_list = h.pub_list;
          subs = rw split c;
          pubs = h.pubs;
          topics = Topics-snoc w.heap.topics vs p pid h.topics;
          sub_count =
              rw split
                (omega (arith, h.sub_count, length-append (cells vs) (cell (new_view p pid) ∷ [])));
          pub_count = omega (arith, h.pub_count);
          topic_count =
              Bounded-snoc (suc w.heap.nodes) vs p pid
                (Bounded-mono w.heap.nodes (suc w.heap.nodes) vs (omega arith) h.topic_count);
        },
        refl,
      )
