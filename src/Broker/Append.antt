-- ===== src/Broker/Append.antt =====
-- The list functions of 02 on a chain: a node behind the tail, and the search for a value.
use eltex_modul.Common.{
  ℕ, zero, suc, ◌<◌, ◌≡◌, ◌≢◌, refl, ◌∙◌, inl, inr, Bool, false, some, [], ◌∷◌, ◌++◌, ◌==◌,
  if◌then◌else◌, arith, length, Bool-cases,
}
use eltex_modul.Broker.Memory.{ok, Ptr, null, Store, node, write, link_tail, append, find}
use eltex_modul.Broker.Chain.{
  not_null, Cells, first, last, queue_of, has, Chain, last-append, frame, last-ne_null, has-last,
  load-some, set_next-some, write_self, write_other, has-ne, Chain-snoc,
}

module _ {ℓ} {A : Type ℓ} where
  -- `g` holds the list with the node at `a` behind it, and is `h` elsewhere.
  pub record Appended (h : Store A) (xs : Cells A) (a : Ptr) (w : A) (g : Store A) : Type ℓ where
    pub chain : Chain g (xs ++ (a, w) ∷ [])
    pub same : (b : Ptr) → (b == a) ≡ false → has b xs ≡ false → g b ≡ h b

  link_tail-Appended :
      (h : Store A) (xs : Cells A) (a : Ptr) (w : A)
      → Chain h xs
      → a ≢ null
      → h a ≡ some (node w null)
      → has a xs ≡ false
      → (g : Store A) × (link_tail h (queue_of xs) a ≡ ok (g, queue_of (xs ++ (a, w) ∷ [])))
        × Appended h xs a w g
  unfolding link_tail
  link_tail-Appended h [] a w c ne e out =
      (h, refl, record { chain = (ne, e, refl, tt); same = λ b f g. refl })
  link_tail-Appended h ((p, v) ∷ xs) a w c ne e out =
      let (t, f, d) = Chain-snoc h p v xs a w c ne e out in
      let l = last ((p, v) ∷ xs) in
      let tail_ne = last-ne_null h p v xs c in
      let full : (l == null) ≡ false = not_null l tail_ne in
      (
        write h l (node t a),
        rw (full, set_next-some h l a (node t null) tail_ne f, last-append ((p, v) ∷ xs) a w) refl,
        record {
          chain = d;
          same =
              λ b f g. write_other h l (node t a) b (has-ne b l ((p, v) ∷ xs) g (has-last p v xs));
        },
      )

  pub append-Appended :
      (h : Store A) (xs : Cells A) (a : Ptr) (w : A) (r : Ptr)
      → Chain h xs
      → a ≢ null
      → h a ≡ some (node w r)
      → has a xs ≡ false
      → (g : Store A) × (append h (queue_of xs) a ≡ ok (g, queue_of (xs ++ (a, w) ∷ [])))
        × Appended h xs a w g
  unfolding append
  append-Appended h xs a w r c ne e out =
      let h' = write h a (node w null) in
      let other = λ (b : Ptr) (f : (b == a) ≡ false). write_other h a (node w null) b f in
      let c' = frame h h' xs c (λ b i. other b (ground (arith, has-ne a b xs out i))) in
      let (g, f, d) = link_tail-Appended h' xs a w c' ne (write_self h a (node w null)) out in
      (
        g,
        rw (set_next-some h a null (node w r) ne e) f,
        record { chain = d.chain; same = λ b i j. d.same b i j ∙ other b i },
      )

  -- The address of the first value that passes the test.
  abbrev pub search : (A → Bool) → Cells A → Ptr
  search test [] = null
  search test ((p, v) ∷ xs) = if test v then p else search test xs

  -- A walk through a chain is the search in what it stands for, if the fuel is above its length.
  pub find-search :
      (fuel : ℕ) (h : Store A) (test : A → Bool) (xs : Cells A)
      → Chain h xs
      → length xs < fuel
      → find fuel h test (first xs) ≡ ok (search test xs)
  unfolding find
  find-search zero h test xs c more = absurd (omega arith)
  find-search (suc fuel) h test [] c more = refl
  find-search (suc fuel) h test ((p, v) ∷ xs) c more =
      let full : (p == null) ≡ false = not_null p c.0 in
      let ih = find-search fuel h test xs c.3 (omega arith) in
      rw (full, load-some h p (node v (first xs)) c.0 c.1)
        (elim (Bool-cases (test v)) [ inl t ↦ rw t refl | inr f ↦ rw f ih ])
