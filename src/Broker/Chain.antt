-- ===== src/Broker/Chain.antt =====
-- What a list of the broker stands for: the addresses and the values of its nodes, in order.
use eltex_modul.Common.{
  ◌≡◌, ◌≢◌, refl, ap, ◌∙◌, Bool, true, false, ◌||◌, none, some, List, [], ◌∷◌, ◌++◌, ◌==◌, arith,
}
use eltex_modul.Broker.Memory.{ok, Ptr, null, Node, Store, Queue, node, write, load, set_next}

pub not_null : (p : Ptr) → p ≢ null → (p == null) ≡ false
not_null p ne = ground arith

abbrev pub Cells {ℓ} : Type ℓ → Type ℓ
Cells A = List (Ptr × A)

module _ {ℓ} {A : Type ℓ} where
  abbrev pub first : Cells A → Ptr
  first [] = null
  first ((p, v) ∷ xs) = p

  abbrev pub last : Cells A → Ptr
  last [] = null
  last ((p, v) ∷ []) = p
  last ((p, v) ∷ x ∷ xs) = last (x ∷ xs)

  abbrev pub queue_of : Cells A → Queue
  queue_of xs = record { head = first xs; tail = last xs }

  abbrev pub values : Cells A → List A
  values [] = []
  values ((p, v) ∷ xs) = v ∷ values xs

  abbrev pub has : Ptr → Cells A → Bool
  has a [] = false
  has a ((p, v) ∷ xs) = (a == p) || has a xs

  -- The nodes stand at distinct addresses, linked in this order up to NULL.
  abbrev pub Chain : Store A → Cells A → Type ℓ
  Chain h [] = Unit
  Chain h ((p, v) ∷ xs) =
      (p ≢ null) × (h p ≡ some (node v (first xs))) × (has p xs ≡ false) × Chain h xs

module _ {ℓ} {A : Type ℓ} where
  pub has-append : (a : Ptr) (xs ys : Cells A) → has a (xs ++ ys) ≡ (has a xs || has a ys)
  has-append a [] ys = refl
  has-append a ((p, v) ∷ xs) ys = ground (arith, has-append a xs ys)

  pub values-append : (xs ys : Cells A) → values (xs ++ ys) ≡ values xs ++ values ys
  values-append [] ys = refl
  values-append ((p, v) ∷ xs) ys = ap (λ r. v ∷ r) (values-append xs ys)

  pub first-append :
      (xs : Cells A) (p : Ptr) (v : A) (ys : Cells A) → first (((p, v) ∷ xs) ++ ys) ≡ p
  first-append xs p v ys = refl

  pub last-append : (xs : Cells A) (p : Ptr) (v : A) → last (xs ++ (p, v) ∷ []) ≡ p
  last-append [] p v = refl
  last-append ((q, w) ∷ []) p v = refl
  last-append ((q, w) ∷ x ∷ xs) p v = last-append (x ∷ xs) p v

  -- A chain survives any change that spares its own addresses.
  pub frame :
      (h g : Store A) (xs : Cells A)
      → Chain h xs
      → ((a : Ptr) → has a xs ≡ true → g a ≡ h a)
      → Chain g xs
  frame h g [] c same = tt
  frame h g ((p, v) ∷ xs) c same =
      (c.0, same p (ground arith) ∙ c.1, c.2, frame h g xs c.3 (λ a i. same a (ground arith)))

  -- What is no node is in no chain.
  pub has_of_none :
      (h : Store A) (a : Ptr) (xs : Cells A) → Chain h xs → h a ≡ none → has a xs ≡ false
  has_of_none h a [] c e = refl
  has_of_none h a ((p, v) ∷ xs) c e = ground (arith, c.1, has_of_none h a xs c.3)

  pub last-ne_null :
      (h : Store A) (p : Ptr) (v : A) (xs : Cells A)
      → Chain h ((p, v) ∷ xs)
      → last ((p, v) ∷ xs) ≢ null
  last-ne_null h p v [] c = c.0
  last-ne_null h p v ((q, w) ∷ xs) c = last-ne_null h q w xs c.3

  pub has-last : (p : Ptr) (v : A) (xs : Cells A) → has (last ((p, v) ∷ xs)) ((p, v) ∷ xs) ≡ true
  has-last p v [] = ground arith
  has-last p v ((q, w) ∷ xs) = ground (arith, has-last q w xs)

  pub load-some : (h : Store A) (p : Ptr) (n : Node A) → p ≢ null → h p ≡ some n → load h p ≡ ok n
  unfolding load
  load-some h p n ne e = let t : (p == null) ≡ false = ground arith in rw (t, e) refl

  pub set_next-some :
      (h : Store A) (p q : Ptr) (n : Node A)
      → p ≢ null
      → h p ≡ some n
      → set_next h p q ≡ ok (write h p (node n.value q))
  unfolding set_next
  set_next-some h p q n ne e = rw (load-some h p n ne e) refl

  pub write_self : (h : Store A) (p : Ptr) (n : Node A) → write h p n p ≡ some n
  unfolding write
  write_self h p n = ground arith

  pub write_other :
      (h : Store A) (p : Ptr) (n : Node A) (q : Ptr) → (q == p) ≡ false → write h p n q ≡ h q
  unfolding write
  write_other h p n q e = rw e refl

  -- An address in a list is none that is not in it.
  pub has-ne : (p q : Ptr) (xs : Cells A) → has p xs ≡ false → has q xs ≡ true → (p == q) ≡ false
  has-ne p q [] out here = cc
  has-ne p q ((r, v) ∷ xs) out here = ground (arith, has-ne p q xs)

  -- The last node of a chain, when its `next` becomes the new node.
  pub Chain-snoc :
      (h : Store A) (p : Ptr) (v : A) (xs : Cells A) (a : Ptr) (w : A)
      → Chain h ((p, v) ∷ xs)
      → a ≢ null
      → h a ≡ some (node w null)
      → has a ((p, v) ∷ xs) ≡ false
      → (t : A) × (h (last ((p, v) ∷ xs)) ≡ some (node t null))
        × Chain (write h (last ((p, v) ∷ xs)) (node t a)) (((p, v) ∷ xs) ++ (a, w) ∷ [])
  unfolding write
  Chain-snoc h p v [] a w c ne e out =
      (v, c.1, (c.0, ground arith, ground arith, (ne, ground (arith, e), refl, tt)))
  Chain-snoc h p v ((q, u) ∷ xs) a w c ne e out =
      let (t, f, d) = Chain-snoc h q u xs a w c.3 ne e (ground arith) in
      (
        t,
        f,
        (
          c.0,
          write_other h (last ((q, u) ∷ xs)) (node t a) p
                (has-ne p (last ((q, u) ∷ xs)) ((q, u) ∷ xs) c.2 (has-last q u xs))
              ∙ c.1,
          ground (arith, c.2, has-append p ((q, u) ∷ xs) ((a, w) ∷ [])),
          d,
        ),
      )
