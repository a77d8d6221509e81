-- ===== src/Copier/Pieces.antt =====
-- The pieces of a file in 01/main.c: the parent's loop over `read` and the child's loop that receives.
use eltex_modul.Common.{
  ℕ, zero, suc, ◌+◌, ◌≤◌, ◌<◌, ◌≡◌, refl, ap, ◌∙◌, true, false, List, [], ◌∷◌, ◌++◌, leb, arith,
  length, take, drop, append_assoc, joined, total, take-append-drop, length-take, length-drop,
}
use eltex_modul.Common.Int.{ℤ, pos, ltb_ℤ, +ℤ_pos}
use eltex_modul.Common.Text.{Bytes}
use eltex_modul.Copier.{
  Message, ok, Effect, write, close, Received, again, encode, read_data, after_header,
  receive_round, receive_data, gone, buffer_length,
}
use eltex_modul.Copier.Parent.{pieces, data_msg, after_pieces, send_pieces}
use eltex_modul.Copier.Layout.{IsMessage, read_msg-encode, take-append, drop-append}

-- Each piece holds a byte and fits the buffer.
abbrev pub AllPieces : List Bytes → Type 0
AllPieces [] = Unit {0}
AllPieces (p ∷ ps) = (0 < length p) × (length p ≤ buffer_length) × AllPieces ps

abbrev pub writes : List Bytes → List Effect
writes [] = close ∷ []
writes (p ∷ ps) = write p ∷ writes ps

pub pieces-joined :
    (fuel : ℕ) (bytes : Bytes) → length bytes ≤ fuel → joined (pieces fuel bytes) ≡ bytes
unfolding pieces
pieces-joined zero [] h = refl
pieces-joined zero (b ∷ bs) h = absurd (omega arith)
pieces-joined (suc fuel) [] h = refl
pieces-joined (suc fuel) (b ∷ bs) h =
    ap (λ r. take buffer_length (b ∷ bs) ++ r)
      (pieces-joined fuel (drop buffer_length (b ∷ bs))
        (omega (arith, length-drop buffer_length (b ∷ bs))))
    ∙ take-append-drop buffer_length (b ∷ bs)

pub pieces-AllPieces : (fuel : ℕ) (bytes : Bytes) → AllPieces (pieces fuel bytes)
unfolding pieces
pieces-AllPieces zero bytes = tt
pieces-AllPieces (suc fuel) [] = tt
pieces-AllPieces (suc fuel) (b ∷ bs) = (
  omega (arith, length-take buffer_length (b ∷ bs)),
  omega (arith, length-take buffer_length (b ∷ bs)),
  pieces-AllPieces fuel (drop buffer_length (b ∷ bs)),
)

data_msg-IsMessage :
    (m : Message) (p : Bytes) → IsMessage m → length p ≤ buffer_length → IsMessage (data_msg m p)
data_msg-IsMessage m p h fit = record {
  kind = omega arith;
  size = omega arith;
  filename = h.filename;
}

pub after_pieces-IsMessage :
    (m : Message) (ps : List Bytes) → IsMessage m → AllPieces ps → IsMessage (after_pieces m ps)
after_pieces-IsMessage m [] h fit = h
after_pieces-IsMessage m (p ∷ ps) h fit =
    after_pieces-IsMessage (data_msg m p) ps (data_msg-IsMessage m p h fit.1) fit.2

read_piece :
    (k : ℕ) (m : Message) (p rest : Bytes)
    → 0 < length p
    → length p ≤ buffer_length
    → read_data (pos k) m (pos (length p)) (p ++ rest)
      ≡ again (write p ∷ []) (pos (k + length p)) m rest
unfolding read_data
read_piece k m [] rest full fit = absurd (omega arith)
read_piece k m (b ∷ bs) rest full fit =
    let small : leb (length (b ∷ bs)) buffer_length ≡ true = ground arith in
    let t = take-append (length bs) bs rest refl in
    let u = drop-append (length bs) bs rest refl in
    rw (small, t, u)
      (ap (λ (x : ℤ). again (write (b ∷ bs) ∷ []) x m rest) (+ℤ_pos k (length (b ∷ bs))))

receive_round-piece :
    (n k : ℕ) (m : Message) (p rest : Bytes)
    → k < n
    → IsMessage m
    → 0 < length p
    → length p ≤ buffer_length
    → receive_round (pos n) (pos k) m (encode (data_msg m p) ++ (p ++ rest))
      ≡ again (write p ∷ []) (pos (k + length p)) (data_msg m p) rest
unfolding receive_round after_header
receive_round-piece n k m p rest less h full fit =
    let t : ltb_ℤ (pos k) (pos n) ≡ true = ground arith in
    let r = read_msg-encode m (data_msg m p) (p ++ rest) (data_msg-IsMessage m p h fit) in
    rw (t, r) (read_piece k (data_msg m p) p rest full fit)

receive_round-full :
    (n : ℕ) (m : Message) (pipe : Bytes) → receive_round (pos n) (pos n) m pipe ≡ gone m pipe false
unfolding receive_round
receive_round-full n m pipe = let t : ltb_ℤ (pos n) (pos n) ≡ false = ground arith in rw t refl

abbrev pub received_file : Message → List Bytes → Bytes → Received
received_file m ps rest = record {
  effects = writes ps;
  msg = after_pieces m ps;
  pipe = rest;
  returned = false;
}

append_three : (a b c d : Bytes) → (a ++ (b ++ c)) ++ d ≡ a ++ (b ++ (c ++ d))
append_three a b c d = append_assoc a (b ++ c) d ∙ ap (λ x. a ++ x) (append_assoc b c d)

-- The loop of the child takes the pieces as they were written, and no byte of what follows.
pub receive_data-pieces :
    (fuel n k : ℕ) (m : Message) (ps : List Bytes) (rest : Bytes)
    → length ps < fuel
    → n ≡ k + total ps
    → IsMessage m
    → AllPieces ps
    → receive_data fuel (pos n) (pos k) m (send_pieces m ps ++ rest) ≡ ok (received_file m ps rest)
unfolding receive_data send_pieces
receive_data-pieces zero n k m ps rest more e h fit = absurd (omega arith)
receive_data-pieces (suc fuel) n k m [] rest more e h fit =
    let e' : n ≡ k = omega arith in rw e' (rw (receive_round-full k m rest, receive_data) refl)
receive_data-pieces (suc fuel) n k m (p ∷ ps) rest more e h fit =
    let d = data_msg m p in
    let step = receive_round-piece n k m p (send_pieces d ps ++ rest) (omega arith) h fit.0 fit.1 in
    let ih =
      receive_data-pieces fuel n (k + length p) d ps rest (omega arith) (omega arith)
        (data_msg-IsMessage m p h fit.1) fit.2 in
    rw (append_three (encode d) p (send_pieces d ps) rest) (rw (step, receive_data) (rw ih refl))
