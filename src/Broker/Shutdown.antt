-- ===== src/Broker/Shutdown.antt =====
-- The end of the broker: send_sigint_to_all of 02/src/broker.c.
--
-- `alive n pid` is whether `kill(pid, 0)` succeeds in the n-th second. What the first signals answer is
-- only printed.
use eltex_modul.Common.{
  ℕ, zero, suc, ◌+◌, ◌≤◌, ◌<◌, ◌≡◌, refl, sym, ap, ◌∙◌, inl, inr, Bool, true, false, not, ◌||◌,
  List, [], ◌∷◌, ◌++◌, ◌==◌, if◌then◌else◌, arith, length, Bool-cases,
}
use eltex_modul.Common.Int.{ℤ}
use eltex_modul.Broker.Memory.{Run, ok, out_of_fuel, ◌>>=◌, Ptr, null, Store, node, load, find}
use eltex_modul.Broker.Chain.{Cells, first, values, Chain, not_null, load-some}
use eltex_modul.Broker.Append.{search, find-search}
use eltex_modul.Broker.Process.{World, Subscriber}
use eltex_modul.Broker.Book.{Entry, View, cells, entries, Holds}

-- The values of a list, as a loop meets them.
unfoldable pub walk {ℓ} : {A : Type ℓ} → ℕ → Store A → Ptr → Run (List A)
walk zero h p = out_of_fuel
walk (suc fuel) h p =
    if p == null then ok [] else (do n ← load h p; rest ← walk fuel h n.next; ok (n.value ∷ rest))

abbrev pub pids_of : List Subscriber → List ℤ
pids_of [] = []
pids_of (s ∷ ss) = s.pid ∷ pids_of ss

-- Whom the two loops send SIGINT.
unfoldable pub send_signals : World → Run (List ℤ)
send_signals w = do
  subs ← walk (suc w.heap.nodes) w.heap.subs w.broker.sub_list.head
  pubs ← walk (suc w.heap.nodes) w.heap.pubs w.broker.pub_list.head
  ok (pids_of subs ++ pubs)

-- The checks of one round: the publishers only if no subscriber is alive.
unfoldable pub check_alive : World → (ℤ → Bool) → Run Bool
check_alive w alive = do
  sub ← find (suc w.heap.nodes) w.heap.subs (λ s. alive s.pid) w.broker.sub_list.head
  let pubs = (do
    p ← find (suc w.heap.nodes) w.heap.pubs alive w.broker.pub_list.head
    ok (not (p == null)))
  if not (sub == null) then ok true else pubs

pub record Waited : Type 0 where
  pub seconds : ℕ
  pub all_terminated : Bool

abbrev pub waited : ℕ → Bool → Waited
waited n done = record { seconds = n; all_terminated = done }

-- The loop that waits, with the seconds that are left to the timeout.
unfoldable pub wait_loop : World → (ℕ → ℤ → Bool) → ℕ → ℕ → Run Waited
wait_loop w alive seconds zero = ok (waited seconds false)
wait_loop w alive seconds (suc left) = do
  some_alive ← check_alive w (alive (suc seconds))
  let more = wait_loop w alive (suc seconds) left
  if some_alive then more else ok (waited (suc seconds) true)

abbrev pub timeout_seconds : ℕ
timeout_seconds = 5

unfoldable pub send_sigint_to_all : World → (ℕ → ℤ → Bool) → Run (List ℤ × Waited)
send_sigint_to_all w alive = do
  signalled ← send_signals w
  r ← wait_loop w alive 0 timeout_seconds
  ok (signalled, r)

walk-values {ℓ} :
    {A : Type ℓ} (fuel : ℕ) (h : Store A) (xs : Cells A)
    → Chain h xs
    → length xs < fuel
    → walk fuel h (first xs) ≡ ok (values xs)
unfolding walk
walk-values zero h xs c more = absurd (omega arith)
walk-values (suc fuel) h [] c more = refl
walk-values (suc fuel) h ((p, v) ∷ xs) c more =
    let full = not_null p c.0 in
    rw (full, load-some h p (node v (first xs)) c.0 c.1)
      (rw (walk-values fuel h xs c.3 (omega arith)) refl)

abbrev pub pids : List Entry → List ℤ
pids [] = []
pids (e ∷ es) = e.pid ∷ pids es

pids-values : (vs : List View) → pids_of (values (cells vs)) ≡ pids (entries vs)
pids-values [] = refl
pids-values (v ∷ vs) = ap (λ r. v.pid ∷ r) (pids-values vs)

abbrev pub any_alive : (ℤ → Bool) → List ℤ → Bool
any_alive alive [] = false
any_alive alive (p ∷ ps) = alive p || any_alive alive ps

search-any_subs :
    (h : Store Subscriber) (alive : ℤ → Bool) (vs : List View)
    → Chain h (cells vs)
    → not (search (λ (s : Subscriber). alive s.pid) (cells vs) == null)
      ≡ any_alive alive (pids (entries vs))
search-any_subs h alive [] c = ground arith
search-any_subs h alive (v ∷ vs) c = ground (arith, c.0, search-any_subs h alive vs c.3)

search-any_pubs :
    (h : Store ℤ) (alive : ℤ → Bool) (ps : Cells ℤ)
    → Chain h ps
    → not (search alive ps == null) ≡ any_alive alive (values ps)
search-any_pubs h alive [] c = ground arith
search-any_pubs h alive ((a, p) ∷ ps) c = ground (arith, c.0, search-any_pubs h alive ps c.3)

-- Everybody in the lists.
abbrev pub everybody : List View → Cells ℤ → List ℤ
everybody vs ps = pids (entries vs) ++ values ps

any_alive-append :
    (alive : ℤ → Bool) (ps qs : List ℤ)
    → any_alive alive (ps ++ qs) ≡ (any_alive alive ps || any_alive alive qs)
any_alive-append alive [] qs = refl
any_alive-append alive (p ∷ ps) qs = ground (arith, any_alive-append alive ps qs)

or_run : (a b : Bool) → (if a then ok true else ok b) ≡ ok (a || b)
or_run true b = refl
or_run false b = refl

module _ (w : World) (vs : List View) (ps : Cells ℤ) (h : Holds w vs ps) where
  send_signals-everybody : send_signals w ≡ ok (everybody vs ps)
  unfolding send_signals
  send_signals-everybody =
      let subs =
        ap (λ q. walk (suc w.heap.nodes) w.heap.subs q.head) h.sub_list
        ∙ walk-values (suc w.heap.nodes) w.heap.subs (cells vs) h.subs
            (omega (arith, h.sub_count)) in
      let pubs =
        ap (λ q. walk (suc w.heap.nodes) w.heap.pubs q.head) h.pub_list
        ∙ walk-values (suc w.heap.nodes) w.heap.pubs ps h.pubs (omega (arith, h.pub_count)) in
      rw (subs, pubs) (ap (λ r. ok (r ++ values ps)) (pids-values vs))

  check_alive-any :
      (alive : ℤ → Bool) → check_alive w alive ≡ ok (any_alive alive (everybody vs ps))
  unfolding check_alive
  check_alive-any alive =
      let subs =
        ap (λ q. find (suc w.heap.nodes) w.heap.subs (λ s. alive s.pid) q.head) h.sub_list
        ∙ find-search (suc w.heap.nodes) w.heap.subs (λ s. alive s.pid) (cells vs) h.subs
            (omega (arith, h.sub_count)) in
      let pubs =
        ap (λ q. find (suc w.heap.nodes) w.heap.pubs alive q.head) h.pub_list
        ∙ find-search (suc w.heap.nodes) w.heap.pubs alive ps h.pubs (omega (arith, h.pub_count)) in
      rw (subs, pubs)
        (or_run (not (search (λ (s : Subscriber). alive s.pid) (cells vs) == null))
            (not (search alive ps == null))
          ∙ ap ok (
              (λ i.
                search-any_subs w.heap.subs alive vs h.subs i
                || search-any_pubs w.heap.pubs alive ps h.pubs i)
              ∙ sym (any_alive-append alive (pids (entries vs)) (values ps))))

  -- How the wait ends: when nobody is alive any more, or at the timeout.
  pub record Ends (alive : ℕ → ℤ → Bool) (seconds left : ℕ) (r : Waited) : Type 0 where
    pub within : r.seconds ≤ seconds + left
    pub gone : r.all_terminated ≡ true → any_alive (alive r.seconds) (everybody vs ps) ≡ false
    pub still : (n : ℕ) → seconds < n → n < r.seconds → any_alive (alive n) (everybody vs ps) ≡ true
    pub timeout : r.all_terminated ≡ false → r.seconds ≡ seconds + left

  wait_loop-Ends :
      (alive : ℕ → ℤ → Bool) (seconds left : ℕ)
      → (r : Waited) × (wait_loop w alive seconds left ≡ ok r) × Ends alive seconds left r
  unfolding wait_loop
  wait_loop-Ends alive seconds zero = (
    waited seconds false,
    refl,
    record {
      within = omega arith;
      gone = λ e. cc;
      still = λ n a b. absurd (omega arith);
      timeout = λ e. omega arith;
    },
  )
  wait_loop-Ends alive seconds (suc left) =
      let ih = wait_loop-Ends alive (suc seconds) left in
      elim (Bool-cases (any_alive (alive (suc seconds)) (everybody vs ps))) [
        | inl some_one ↦ (
          ih.0,
          rw (check_alive-any (alive (suc seconds)), some_one) ih.1,
          record {
            within = omega (arith, ih.2.within);
            gone = ih.2.gone;
            still = λ n a b. elim (Bool-cases (n == suc seconds)) [
              | inl e ↦ let e' : n ≡ suc seconds = ground (arith, e) in rw e' some_one
              | inr e ↦ ih.2.still n (ground (arith, e, a)) b
            ];
            timeout = λ e. omega (arith, ih.2.timeout e);
          },
        )
        | inr nobody ↦ (
          waited (suc seconds) true,
          rw (check_alive-any (alive (suc seconds)), nobody) refl,
          record {
            within = omega arith;
            gone = λ e. nobody;
            still = λ n a b. absurd (omega arith);
            timeout = λ e. cc;
          },
        )
      ]

  -- What the end of the broker does.
  pub record Finished (alive : ℕ → ℤ → Bool) : Type 0 where
    pub result : Waited
    pub run : send_sigint_to_all w alive ≡ ok (everybody vs ps, result)
    pub ends : Ends alive 0 timeout_seconds result

  -- When the lists hold a book, send_sigint_to_all ends: SIGINT goes to each process in the lists,
  -- subscribers first, and the wait takes at most five seconds. It ends early only in a second in which no
  -- process of the lists is alive, and goes on through every second before it, in which one is.
  pub send_sigint-Finished : (alive : ℕ → ℤ → Bool) → Finished alive
  unfolding send_sigint_to_all
  send_sigint-Finished alive =
      let (r, e, f) = wait_loop-Ends alive 0 timeout_seconds in
      record { result = r; run = rw send_signals-everybody (rw e refl); ends = f }
