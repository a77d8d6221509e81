-- ===== src/Server/Join.antt =====
-- How a client joins the chat of 07/server.c, and what becomes of a connection that does not.
use mathlib.Core.Option.{get_or}
use eltex_modul.Common.{
  ℕ, ◌≡◌, refl, ◌∙◌, true, false, none, some, List, [], ◌∷◌, ◌++◌, arith, ◌↔◌, inl, inr, ltb,
  length, set, ◌≤◌, ◌<◌, Bool-cases, lt→ltb,
}
use eltex_modul.Common.Int.{ℤ, pos, ◌==ℤ◌, ◌+ℤ◌, ltb_ℤ}
use eltex_modul.Common.Text.{Bytes, utf8, c_str, c_str_id, skip_space, AllOf, not_zero, span-whole}
use eltex_modul.Server.{Server, Effect, max_clients, find_client_by_fd, broadcast_message}
use eltex_modul.Server.Connection.{
  Arrival, register, after, handle_new_connection, name_size, newcomer, with_client, watching,
  scan_word, not_space, join_msg,
}
use eltex_modul.Server.Inv.{Inv}
use eltex_modul.Server.Slots.{FreeAt}
use eltex_modul.Server.Broadcast.{inbox, delivery, inbox-broadcast}
use eltex_modul.Server.Admission.{IsFresh, find_free_slot-FreeAt, fill-Filled, with_client-Inv}

-- A user name as the client program sends it: not empty, without white space and zero bytes.
pub record IsName (name : Bytes) : Type 0 where
  pub full : 0 < length name
  pub solid : AllOf not_space name
  pub text : AllOf not_zero name

-- The connection `n` is watched and its first packet is "INIT:" with the name.
abbrev pub greeting : ℕ → Bytes → Bytes → Arrival
greeting n name junk = record {
  accepted = pos n;
  watched = true;
  packet = some (utf8 "INIT:" ++ name);
  junk = junk;
}

scan_word-name : (name junk : Bytes) → IsName name → get_or (scan_word (c_str name)) junk ≡ name
unfolding scan_word skip_space
scan_word-name [] junk h = absurd (omega (arith, h.full))
scan_word-name (c ∷ cs) junk h =
    rw (c_str_id (c ∷ cs) h.text, scan_word)
      (ground (arith, h.solid, span-whole not_space (length (c ∷ cs)) (c ∷ cs) h.solid))

-- While the table has room, such a connection comes to the registration of its name.
greeting-register :
    (s : Server) (n : ℕ) (name junk : Bytes)
    → Inv s
    → ltb_ℤ s.client_count (pos max_clients) ≡ true
    → IsName name
    → (k : ℕ) × FreeAt s.clients k
      × (handle_new_connection s (greeting n name junk)
          ≡ after (watching (pos n)) (register s (pos n) k name))
unfolding handle_new_connection c_str
greeting-register s n name junk v room h =
    let (k, e, f) = find_free_slot-FreeAt s v room in
    (k, f, rw (room, e, handle_new_connection, scan_word-name name junk h) refl)

-- The state and the effects after the client `name` has joined as `fd`.
pub record Joined (s : Server) (fd : ℤ) (name : Bytes) (t : Server) (es : List Effect)
    : Type 0 where
  pub valid : Inv t
  pub there : find_client_by_fd t fd ≡ some (newcomer fd name)
  pub others : (gd : ℤ) → (gd ==ℤ fd) ≡ false → find_client_by_fd t gd ≡ find_client_by_fd s gd
  pub counted : t.client_count ≡ s.client_count +ℤ pos 1
  pub told : (gd : ℤ) → inbox gd es ≡ delivery t fd (join_msg name) gd

-- A client whose name is shorter than 32 bytes joins while there are fewer than 30: its descriptor is
-- found with its name, every other one gives what it gave, the counter grows by one, the invariant
-- holds, and every other active client is sent the notice once, nobody else anything.
pub greeting-Joined :
    (s : Server) (n : ℕ) (name junk : Bytes)
    → Inv s
    → ltb_ℤ s.client_count (pos max_clients) ≡ true
    → IsFresh s (pos n)
    → IsName name
    → length name < name_size
    → (t : Server) × (es : List Effect) × (handle_new_connection s (greeting n name junk)
        ≡ some (t, es))
      × Joined s (pos n) name t es
unfolding register after inbox find_client_by_fd
greeting-Joined s n name junk v room fresh h short =
    let fits = lt→ltb (length name) name_size short in
    let (k, f, e) = greeting-register s n name junk v room h in
    let r = fill-Filled s n k name v fresh f fits in
    let t = with_client s (set s.clients k (newcomer (pos n) name)) in
    let v' = with_client-Inv s _ _ v r in
    (
      t,
      watching (pos n) ++ broadcast_message t (pos n) (join_msg name),
      e ∙ rw (fits, register, after) refl,
      record {
        valid = v';
        there = r.there;
        others = r.others;
        counted = refl;
        told = λ gd. inbox-broadcast t (pos n) (join_msg name) gd v';
      },
    )

-- While the table has room, a connection that sends "INIT:" with a name overflows the buffer `name`
-- of the handler exactly when the name has 32 bytes or more.
pub greeting-overflow :
    (s : Server) (n : ℕ) (name junk : Bytes)
    → Inv s
    → ltb_ℤ s.client_count (pos max_clients) ≡ true
    → IsName name
    → (handle_new_connection s (greeting n name junk) ≡ none) ↔ (name_size ≤ length name)
unfolding register after
greeting-overflow s n name junk v room h =
    let (k, f, e) = greeting-register s n name junk v room h in
    elim (Bool-cases (ltb (length name) name_size)) [
      | inl fits ↦ rw (e, fits, register, after) (λ q. cc, λ q. ground arith)
      | inr over ↦ rw (e, over, register, after) (λ q. ground arith, λ q. refl)
    ]
