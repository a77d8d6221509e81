-- ===== src/Broker/Naming.antt =====
-- A topic behind the topics of one subscriber: add_topic of 02/src/subscriber.c on the lists of the broker.
use eltex_modul.Common.{
  ℕ, ◌≤◌, ◌≡◌, ◌≢◌, refl, sym, ap, ◌∙◌, inl, inr, true, false, some, List, [], ◌∷◌, ◌++◌, ◌==◌,
  if◌then◌else◌, arith, length, Bool-cases,
}
use eltex_modul.Common.Int.{ℤ, ◌==ℤ◌}
use eltex_modul.Common.Text.{Bytes}
use eltex_modul.Broker.Memory.{Ptr, null, Store, node, write}
use eltex_modul.Broker.Chain.{
  first, queue_of, values-append, has, has-append, Chain, frame, write_self, write_other, has-ne,
}
use eltex_modul.Broker.Append.{search}
use eltex_modul.Broker.Process.{Subscriber, has_pid}
use eltex_modul.Broker.Book.{
  View, cell, cells, entry, entries, in_any, Topics, Bounded, is_known, subscribe,
}

-- The first subscriber with the pid, and the address of the one behind it.
abbrev pub picked : ℤ → List View → View
picked pid [] = record { at = null; pid = pid; topics = [] }
picked pid (v ∷ vs) = if v.pid ==ℤ pid then v else picked pid vs

abbrev pub behind : ℤ → List View → Ptr
behind pid [] = null
behind pid (v ∷ vs) = if v.pid ==ℤ pid then first (cells vs) else behind pid vs

-- The lists with one more topic for it.
abbrev pub name_for : ℤ → Ptr × Bytes → List View → List View
name_for pid t [] = []
name_for pid t (v ∷ vs) =
    if v.pid ==ℤ pid then record v { topics = v.topics ++ t ∷ [] } ∷ vs else v ∷ name_for pid t vs

pub entries-name_for :
    (pid : ℤ) (a : Ptr) (t : Bytes) (vs : List View)
    → entries (name_for pid (a, t) vs) ≡ subscribe pid t (entries vs)
unfolding subscribe
entries-name_for pid a t [] = refl
entries-name_for pid a t (v ∷ vs) = elim (Bool-cases (v.pid ==ℤ pid)) [
  | inl e ↦ rw e (
      ap (λ ts. (record { pid = v.pid; topics = ts }) ∷ entries vs)
        (values-append v.topics ((a, t) ∷ [])))
  | inr e ↦ rw e (ap (λ r. entry v ∷ r) (entries-name_for pid a t vs))
]

pub search-picked :
    (pid : ℤ) (vs : List View) → search (has_pid pid) (cells vs) ≡ (picked pid vs).at
search-picked pid [] = refl
search-picked pid (v ∷ vs) = ground (arith, search-picked pid vs)

pub first-name_for :
    (pid : ℤ) (t : Ptr × Bytes) (vs : List View)
    → first (cells (name_for pid t vs)) ≡ first (cells vs)
first-name_for pid t [] = refl
first-name_for pid t (v ∷ vs) = ground arith

has-name_for :
    (b : Ptr) (pid : ℤ) (t : Ptr × Bytes) (vs : List View)
    → has b (cells (name_for pid t vs)) ≡ has b (cells vs)
has-name_for b pid t [] = refl
has-name_for b pid t (v ∷ vs) = ground (arith, has-name_for b pid t vs)

has-picked :
    (pid : ℤ) (vs : List View)
    → is_known pid (entries vs) ≡ true
    → has (picked pid vs).at (cells vs) ≡ true
unfolding is_known
has-picked pid [] k = cc
has-picked pid (v ∷ vs) k = ground (arith, has-picked pid vs)

pub in_any-picked :
    (b : Ptr) (pid : ℤ) (vs : List View)
    → in_any b vs ≡ false
    → has b (picked pid vs).topics ≡ false
in_any-picked b pid [] h = refl
in_any-picked b pid (v ∷ vs) h = ground (arith, in_any-picked b pid vs)

pub in_any-name_for :
    (b : Ptr) (pid : ℤ) (a : Ptr) (t : Bytes) (vs : List View)
    → in_any b vs ≡ false
    → (b == a) ≡ false
    → in_any b (name_for pid (a, t) vs) ≡ false
in_any-name_for b pid a t [] h e = refl
in_any-name_for b pid a t (v ∷ vs) h e =
    ground (arith, has-append b v.topics ((a, t) ∷ []), in_any-name_for b pid a t vs)

-- What is true of the picked subscriber.
pub record Picked (h : Store Subscriber) (g : Store Bytes) (n : ℕ) (v : View) (r : Ptr)
    : Type 0 where
  pub ne : v.at ≢ null
  pub holds : h v.at ≡ some (node (record { pid = v.pid; topics = queue_of v.topics }) r)
  pub chain : Chain g v.topics
  pub bounded : length v.topics ≤ n

pub picked-Picked :
    (h : Store Subscriber) (g : Store Bytes) (n : ℕ) (pid : ℤ) (vs : List View)
    → is_known pid (entries vs) ≡ true
    → Chain h (cells vs)
    → Topics g vs
    → Bounded n vs
    → Picked h g n (picked pid vs) (behind pid vs)
unfolding is_known
picked-Picked h g n pid [] k c t b = cc
picked-Picked h g n pid (v ∷ vs) k c t b = elim (Bool-cases (v.pid ==ℤ pid)) [
  | inl e ↦ rw e (record { ne = c.0; holds = c.1; chain = t.0; bounded = b.0 })
  | inr e ↦ rw e (picked-Picked h g n pid vs (ground (arith, k, e)) c.3 t.2 b.1)
]

-- The chain of subscribers when the picked one gets a new value.
pub cells-named :
    (h : Store Subscriber) (pid : ℤ) (a : Ptr) (t : Bytes) (vs : List View)
    → is_known pid (entries vs) ≡ true
    → Chain h (cells vs)
    → let v = picked pid vs in
      let s : Subscriber = record { pid = v.pid; topics = queue_of (v.topics ++ (a, t) ∷ []) } in
      Chain (write h v.at (node s (behind pid vs))) (cells (name_for pid (a, t) vs))
unfolding is_known
cells-named h pid a t [] k c = cc
cells-named h pid a t (v ∷ vs) k c = elim (Bool-cases (v.pid ==ℤ pid)) [
  | inl e ↦
      let s : Subscriber = record { pid = v.pid; topics = queue_of (v.topics ++ (a, t) ∷ []) } in
      let n = node s (first (cells vs)) in
      rw e (
        c.0,
        write_self h v.at n,
        c.2,
        frame h (write h v.at n) (cells vs) c.3
            (λ b i. write_other h v.at n b (ground (arith, has-ne v.at b (cells vs) c.2 i))),
      )
  | inr e ↦
      let known : is_known pid (entries vs) ≡ true = ground (arith, k, e) in
      let p = picked pid vs in
      let s : Subscriber = record { pid = p.pid; topics = queue_of (p.topics ++ (a, t) ∷ []) } in
      let n = node s (behind pid vs) in
      let apart = has-ne v.at p.at (cells vs) c.2 (has-picked pid vs known) in
      rw e (
        c.0,
        write_other h p.at n v.at apart
            ∙ c.1
            ∙ ap (λ q. some (node (cell v).1 q)) (sym (first-name_for pid (a, t) vs)),
        has-name_for v.at pid (a, t) vs ∙ c.2,
        cells-named h pid a t vs known c.3,
      )
]
