-- ===== src/Copier/Layout.antt =====
-- The bytes of a Message in the pipe.
use eltex_modul.Common.{
  ℕ, zero, suc, ◌^◌, ◌<◌, ◌≡◌, refl, ap, ◌∙◌, some, List, [], ◌∷◌, ◌++◌, arith, length, take, drop,
}
use eltex_modul.Common.Int.{InInt32, to_u32-bound, of_u32-to_u32, to_u32, of_u32, ℤ}
use eltex_modul.Common.Text.{Bytes}
use eltex_modul.Copier.{
  Message, encode, decode, read_msg, le32, of_le, sizeof_message, max_filename,
}

pub take-append {ℓ} : {A : Type ℓ} (n : ℕ) (xs ys : List A) → length xs ≡ n → take n (xs ++ ys) ≡ xs
take-append zero [] ys e = refl
take-append zero (x ∷ xs) ys e = absurd (omega arith)
take-append (suc n) [] ys e = absurd (omega arith)
take-append (suc n) (x ∷ xs) ys e = ap (λ r. x ∷ r) (take-append n xs ys (omega arith))

pub drop-append {ℓ} : {A : Type ℓ} (n : ℕ) (xs ys : List A) → length xs ≡ n → drop n (xs ++ ys) ≡ ys
drop-append zero [] ys e = refl
drop-append zero (x ∷ xs) ys e = absurd (omega arith)
drop-append (suc n) [] ys e = absurd (omega arith)
drop-append (suc n) (x ∷ xs) ys e = drop-append n xs ys (omega arith)

of_le-le32 : (u : ℕ) → u < 2 ^ 32 → of_le (le32 u) ≡ u
of_le-le32 u h = omega arith

field : (x : ℤ) → InInt32 x → of_u32 (of_le (le32 (to_u32 x))) ≡ x
field x h = ap of_u32 (of_le-le32 (to_u32 x) (to_u32-bound x)) ∙ of_u32-to_u32 x h

-- A Message whose fields have their sizes.
pub record IsMessage (m : Message) : Type 0 where
  pub kind : InInt32 m.kind
  pub size : InInt32 m.size
  pub filename : length m.filename ≡ max_filename

abbrev message : ℤ → ℤ → Bytes → Message
message k l f = record { kind = k; size = l; filename = f }

fields :
    {k l : ℤ} {f g : Bytes} {k' l' : ℤ} → k ≡ k' → l ≡ l' → f ≡ g → message k l f ≡ message k' l' g
fields e e' e'' = λ i. message (e i) (e' i) (e'' i)

decode-encode : (m : Message) (r : Bytes) → IsMessage m → decode (encode m ++ r) ≡ m
unfolding encode decode
decode-encode m r h =
    fields (field m.kind h.kind) (field m.size h.size)
      (take-append max_filename m.filename r h.filename)

length-encode : (m : Message) → IsMessage m → length (encode m) ≡ sizeof_message
unfolding encode
length-encode m h = omega (arith, h.filename)

read_msg-cons :
    (old : Message) (bytes rest : Bytes) (m : Message)
    → length bytes ≡ sizeof_message
    → ((r : Bytes) → decode (bytes ++ r) ≡ m)
    → read_msg old (bytes ++ rest) ≡ some (m, rest)
unfolding read_msg
read_msg-cons old [] rest m e d = absurd (omega arith)
read_msg-cons old (b ∷ bs) rest m e d =
    let t = take-append 263 bs rest (omega arith) in
    let u = drop-append 263 bs rest (omega arith) in
    rw (t, u) (ap (λ (x : Message). some (x, rest)) (d (drop (length (b ∷ bs)) (encode old))))

-- The child reads the Message that the parent has written, and nothing of what follows.
pub read_msg-encode :
    (old m : Message) (rest : Bytes)
    → IsMessage m
    → read_msg old (encode m ++ rest) ≡ some (m, rest)
read_msg-encode old m rest h =
    read_msg-cons old (encode m) rest m (length-encode m h) (λ r. decode-encode m r h)
