-- ===== src/Copier/Fuel.antt =====
-- The loops of the child of 01/main.c, and the bytes that they take out of the pipe.
use eltex_modul.Common.{
  ℕ, zero, suc, ◌≤◌, ◌<◌, ◌≡◌, ◌≢◌, refl, ◌⊎◌, inl, inr, Bool, true, Option, none, some, List, [],
  ◌∷◌, ◌++◌, leb, arith, length, take, drop, Bool-cases, length-drop,
}
use eltex_modul.Common.Int.{ℤ, pos, negsuc, ltb_ℤ, ◌==ℤ◌}
use eltex_modul.Common.Text.{Bytes}
use eltex_modul.Copier.{
  Message, Result, ok, exited, fault, stuck, Effect, Received, Round, leave, overrun, again,
  read_msg, read_data, after_header, next_header, receive_round, receive_data, file_info,
  child_round, child_loop, child_func, has_zero, copied_file, with_effects, map_result,
  buffer_length, got_data, ready, msg_done, msg_data, msg_file_info,
}

-- A round that goes on has taken a byte at least of a pipe of `n` bytes.
abbrev Shorter : ℕ → Round → Type 0
Shorter n (leave r) = length r.pipe ≤ n
Shorter n overrun = Unit {0}
Shorter n (again es received m pipe) = length pipe < n

-- It is a result, and no more than `n` bytes are left.
abbrev Ended : ℕ → Result Received → Type 0
Ended n (ok r) = length r.pipe ≤ n
Ended n exited = Unit {0}
Ended n fault = Unit {0}
Ended n stuck = ⊥

abbrev Read : ℕ → Option (Message × Bytes) → Type 0
Read n none = Unit {0}
Read n (some r) = length r.1 < n

read_msg-Read : (m : Message) (pipe : Bytes) → Read (length pipe) (read_msg m pipe)
unfolding read_msg
read_msg-Read m [] = tt
read_msg-Read m (b ∷ bs) = omega (arith, length-drop 263 bs)

got_data-Shorter :
    (n : ℕ) (received : ℤ) (m : Message) (got pipe : Bytes)
    → length pipe < n
    → Shorter n (got_data received m got pipe)
got_data-Shorter n received m [] pipe h = h
got_data-Shorter n received m (b ∷ bs) pipe h = h

read_data-Shorter :
    (n : ℕ) (received : ℤ) (m : Message) (size : ℤ) (pipe : Bytes)
    → length pipe < n
    → Shorter n (read_data received m size pipe)
unfolding read_data
read_data-Shorter n received m (negsuc k) pipe h = tt
read_data-Shorter n received m (pos k) pipe h = elim (Bool-cases (leb k buffer_length)) [
  | inl t ↦ rw t (
      got_data-Shorter n received m (take k pipe) (drop k pipe) (omega (arith, length-drop k pipe)))
  | inr f ↦ rw f tt
]

after_header-Shorter :
    (n : ℕ) (received : ℤ) (m : Message) (pipe : Bytes)
    → length pipe < n
    → Shorter n (after_header received m pipe)
unfolding after_header
after_header-Shorter n received m pipe h = elim (Bool-cases (m.kind ==ℤ msg_done)) [
  | inl t ↦ rw t (omega arith)
  | inr f ↦ rw f (elim (Bool-cases (m.kind ==ℤ msg_data)) [
    | inl t ↦ rw t (read_data-Shorter n received m m.size pipe h)
    | inr g ↦ rw g h
  ])
]

next_header-Shorter :
    (received : ℤ) (m : Message) (pipe : Bytes) (r : Option (Message × Bytes))
    → Read (length pipe) r
    → Shorter (length pipe) (next_header received m pipe r)
next_header-Shorter received m pipe none h = omega arith
next_header-Shorter received m pipe (some r) h =
    after_header-Shorter (length pipe) received r.0 r.1 h

receive_round-Shorter :
    (total received : ℤ) (m : Message) (pipe : Bytes)
    → Shorter (length pipe) (receive_round total received m pipe)
unfolding receive_round
receive_round-Shorter total received m pipe = elim (Bool-cases (ltb_ℤ received total)) [
  | inl t ↦ rw t (next_header-Shorter received m pipe (read_msg m pipe) (read_msg-Read m pipe))
  | inr f ↦ rw f (omega arith)
]

Ended-map :
    (n k : ℕ) (es : List Effect) (r : Result Received)
    → n ≤ k
    → Ended n r
    → Ended k (map_result (with_effects es) r)
Ended-map n k es (ok r) h e = omega arith
Ended-map n k es exited h e = tt
Ended-map n k es fault h e = tt
Ended-map n k es stuck h e = elim e [ ]

receive_data-round :
    (fuel : ℕ) (total received : ℤ) (m : Message) (pipe : Bytes) (r : Round)
    → Shorter (length pipe) r
    → receive_round total received m pipe ≡ r
    → ((received' : ℤ) (m' : Message) (pipe' : Bytes)
        → length pipe' < length pipe
        → Ended (length pipe') (receive_data fuel total received' m' pipe'))
    → Ended (length pipe) (receive_data (suc fuel) total received m pipe)
unfolding receive_data
receive_data-round fuel total received m pipe (leave r) k e ih = rw (e, receive_data) k
receive_data-round fuel total received m pipe overrun k e ih = rw (e, receive_data) tt
receive_data-round fuel total received m pipe (again es received' m' pipe') k e ih =
    rw (e, receive_data)
      (Ended-map (length pipe') (length pipe) es (receive_data fuel total received' m' pipe')
        (omega arith) (ih received' m' pipe' k))

receive_data-Ended :
    (fuel : ℕ) (total received : ℤ) (m : Message) (pipe : Bytes)
    → length pipe < fuel
    → Ended (length pipe) (receive_data fuel total received m pipe)
receive_data-Ended zero total received m pipe h = absurd (omega arith)
receive_data-Ended (suc fuel) total received m pipe h =
    receive_data-round fuel total received m pipe (receive_round total received m pipe)
      (receive_round-Shorter total received m pipe) refl
      (λ received' m' pipe' less. receive_data-Ended fuel total received' m' pipe' (omega arith))

-- The child has returned, or has taken a byte at least of a pipe of `n` bytes.
abbrev Went : ℕ → Result Received → Type 0
Went n (ok r) = (r.returned ≡ true) ⊎ (length r.pipe < n)
Went n exited = Unit {0}
Went n fault = Unit {0}
Went n stuck = ⊥

Ended-Went : (n k : ℕ) (r : Result Received) → n < k → Ended n r → Went k r
Ended-Went n k (ok r) h e = inr (omega arith)
Ended-Went n k exited h e = tt
Ended-Went n k fault h e = tt
Ended-Went n k stuck h e = elim e [ ]

file_info-Ended :
    (opens : Bytes → Bool) (m : Message) (pipe : Bytes)
    → Ended (length pipe) (file_info opens m pipe)
unfolding file_info
file_info-Ended opens m pipe = elim (Bool-cases (has_zero m.filename)) [
  | inr f ↦ rw f tt
  | inl t ↦ rw t (elim (Bool-cases (opens (copied_file m.filename))) [
    | inr g ↦ rw g (omega arith)
    | inl u ↦ rw u (
        Ended-map (length pipe) (length pipe) (Effect.create (copied_file m.filename) ∷ [])
          (receive_data (suc (length pipe)) m.size (pos 0) m pipe) (omega arith)
          (receive_data-Ended (suc (length pipe)) m.size (pos 0) m pipe (omega arith)))
  ])
]

child_round-Went :
    (opens : Bytes → Bool) (n : ℕ) (m : Message) (pipe : Bytes) (got : Option (Message × Bytes))
    → Read n got
    → Went n (child_round opens m pipe got)
unfolding child_round
child_round-Went opens n m pipe none h = inl refl
child_round-Went opens n m pipe (some r) h = elim (Bool-cases (r.0.kind ==ℤ msg_file_info)) [
  | inl t ↦
      rw t (Ended-Went (length r.1) n (file_info opens r.0 r.1) h (file_info-Ended opens r.0 r.1))
  | inr f ↦
      rw f (elim (Bool-cases (r.0.kind ==ℤ msg_done)) [
        | inl t ↦ rw t (inl refl)
        | inr g ↦ rw g (inr h)
      ])
]

map_result-ends :
    (f : List Effect → List Effect) (r : Result (List Effect)) → r ≢ stuck → map_result f r ≢ stuck
map_result-ends f (ok es) h = ground arith
map_result-ends f exited h = ground arith
map_result-ends f fault h = ground arith
map_result-ends f stuck h = h

child_loop-round :
    (fuel : ℕ) (opens : Bytes → Bool) (m : Message) (pipe : Bytes) (r : Result Received)
    → Went (length pipe) r
    → child_round opens m pipe (read_msg m pipe) ≡ r
    → ((m' : Message) (pipe' : Bytes)
        → length pipe' < length pipe
        → child_loop fuel opens m' pipe' ≢ stuck)
    → child_loop (suc fuel) opens m pipe ≢ stuck
unfolding child_loop
child_loop-round fuel opens m pipe (ok r) k e ih = elim (Bool-cases r.returned) [
  | inl t ↦ rw (e, child_loop) (rw t (ground arith))
  | inr f ↦
      rw (e, child_loop)
        (rw f (
          map_result-ends (λ es. r.effects ++ es) (child_loop fuel opens r.msg r.pipe)
            (ih r.msg r.pipe (ground (arith, k, f)))))
]
child_loop-round fuel opens m pipe exited k e ih = rw (e, child_loop) (ground arith)
child_loop-round fuel opens m pipe fault k e ih = rw (e, child_loop) (ground arith)
child_loop-round fuel opens m pipe stuck k e ih = elim k [ ]

child_loop-ends :
    (fuel : ℕ) (opens : Bytes → Bool) (m : Message) (pipe : Bytes)
    → length pipe < fuel
    → child_loop fuel opens m pipe ≢ stuck
child_loop-ends zero opens m pipe h = absurd (omega arith)
child_loop-ends (suc fuel) opens m pipe h =
    child_loop-round fuel opens m pipe (child_round opens m pipe (read_msg m pipe))
      (child_round-Went opens (length pipe) m pipe (read_msg m pipe) (read_msg-Read m pipe)) refl
      (λ m' pipe' less. child_loop-ends fuel opens m' pipe' (omega arith))

-- The child always comes to an end, whatever bytes are in the pipe and whichever files it can create:
-- one round of fuel for each byte, and one more, is enough for its loop and the loop inside it.
pub child_func-ends :
    (opens : Bytes → Bool) (junk pipe : Bytes) → child_func opens junk pipe ≢ stuck
unfolding child_func
child_func-ends opens junk pipe =
    child_loop-ends (suc (length pipe)) opens (ready junk) pipe (omega arith)
