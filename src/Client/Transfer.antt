-- ===== src/Client/Transfer.antt =====
-- A file between two clients of 07/client.c: the blocks of `send_file` and the loop of `receive_file`.
use eltex_modul.Common.{
  joined, total, length-joined, ℕ, zero, suc, ◌+◌, ◌≡◌, refl, ap, sym, ◌∙◌, ◌≤◌, ◌<◌, true, none,
  some, List, [], ◌∷◌, ◌++◌, length, take, drop, arith, take-append-drop, length-drop, length-take,
}
use eltex_modul.Common.Int.{ℤ, pos, ltb_ℤ, ◌+ℤ◌, +ℤ_pos, ℤ}
use eltex_modul.Common.Text.{Bytes, utf8}
use eltex_modul.Client.{
  Effect, create, write, close, show, Packets, file_buffer, receive_loop, received_name,
  receive_file, blocks,
}

-- Each block holds a byte and fits the buffer of `fread`.
abbrev pub AllFit : List Bytes → Type 0
AllFit [] = Unit {0}
AllFit (b ∷ bs) = (0 < length b) × (length b ≤ file_buffer) × AllFit bs

abbrev pub arriving : List Bytes → Packets → Packets
arriving [] ps = ps
arriving (b ∷ bs) ps = some b ∷ arriving bs ps

abbrev pub writes : List Bytes → List Effect
writes [] = []
writes (b ∷ bs) = write b ∷ writes bs

pub blocks-joined :
    (fuel : ℕ) (bytes : Bytes) → length bytes ≤ fuel → joined (blocks fuel bytes) ≡ bytes
unfolding blocks
blocks-joined zero [] h = refl
blocks-joined zero (b ∷ bs) h = absurd (omega arith)
blocks-joined (suc fuel) [] h = refl
blocks-joined (suc fuel) (b ∷ bs) h =
    ap (λ r. take file_buffer (b ∷ bs) ++ r)
      (blocks-joined fuel (drop file_buffer (b ∷ bs))
        (omega (arith, length-drop file_buffer (b ∷ bs))))
    ∙ take-append-drop file_buffer (b ∷ bs)

blocks-AllFit : (fuel : ℕ) (bytes : Bytes) → AllFit (blocks fuel bytes)
unfolding blocks
blocks-AllFit zero bytes = tt
blocks-AllFit (suc fuel) [] = tt
blocks-AllFit (suc fuel) (b ∷ bs) = (
  omega (arith, length-take file_buffer (b ∷ bs)),
  omega (arith, length-take file_buffer (b ∷ bs)),
  blocks-AllFit fuel (drop file_buffer (b ∷ bs)),
)

-- With all bytes there, the loop takes nothing more.
receive_loop-full : (n : ℕ) (ps : Packets) → receive_loop (pos n) (pos n) ps ≡ ([], ps)
unfolding receive_loop
receive_loop-full n [] = refl
receive_loop-full n (none ∷ ps) = ground arith
receive_loop-full n (some [] ∷ ps) = ground arith
receive_loop-full n (some (b ∷ bs) ∷ ps) = ground arith

abbrev writing : Bytes → List Effect × Packets → List Effect × Packets
writing b r = (write b ∷ r.0, r.1)

receive_loop-step :
    (r n : ℤ) (c : ℕ) (cs : Bytes) (ps : Packets)
    → ltb_ℤ r n ≡ true
    → receive_loop r n (some (c ∷ cs) ∷ ps)
      ≡ writing (c ∷ cs) (receive_loop (r +ℤ pos (length (c ∷ cs))) n ps)
unfolding receive_loop
receive_loop-step r n c cs ps less = rw less refl

receive_loop-writes :
    (k n : ℕ) (bs : List Bytes) (ps : Packets)
    → AllFit bs
    → n ≡ k + total bs
    → receive_loop (pos k) (pos n) (arriving bs ps) ≡ (writes bs, ps)
receive_loop-writes k n [] ps f e = let e' : n ≡ k = omega arith in rw e' (receive_loop-full k ps)
receive_loop-writes k n ([] ∷ bs) ps f e = absurd (omega arith)
receive_loop-writes k n ((c ∷ cs) ∷ bs) ps f e =
    receive_loop-step (pos k) (pos n) c cs (arriving bs ps) (ground arith)
    ∙ rw (+ℤ_pos k (length (c ∷ cs))) (
        ap (writing (c ∷ cs)) (receive_loop-writes (k + length (c ∷ cs)) n bs ps f.2 (omega arith)))

-- `receive_file`, told the size of the file, writes the blocks of it into the file that it creates, and
-- leaves all that comes behind them.
pub receive_file-writes :
    (filename bytes : Bytes) (sent : List Bytes) (ps : Packets)
    → blocks (length bytes) bytes ≡ sent
    → ((receive_file true filename (pos (length bytes)) (arriving sent ps)).0
        ≡ create (received_name filename)
          ∷ (writes sent
              ++ close
                ∷ show (utf8 "\nФайл сохранен как: " ++ (received_name filename ++ utf8 "\n"))
                ∷ []))
      × ((receive_file true filename (pos (length bytes)) (arriving sent ps)).1 ≡ ps)
unfolding receive_file
receive_file-writes filename bytes sent ps e =
    let whole : joined sent ≡ bytes =
      ap joined (sym e) ∙ blocks-joined (length bytes) bytes (omega arith) in
    let fit : AllFit sent = rw e at (blocks-AllFit (length bytes) bytes) in
    let got =
      receive_loop-writes 0 (length bytes) sent ps fit
        (omega (arith, length-joined sent, ap length whole)) in
    (rw got refl, rw got refl)
