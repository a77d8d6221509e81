-- ===== src/Chat/Rounds.antt =====
-- What the rounds of 06/main.c send and show, and the port.
use eltex_modul.Common.{
  ℕ, zero, suc, ◌+◌, ◌*◌, ◌≤◌, ◌<◌, ◌^◌, ◌≡◌, ◌≢◌, refl, ap, ◌∙◌, false, not, none, some, [], ◌∷◌,
  ◌++◌, if◌then◌else◌, ◌==◌, arith, length, replicate, length-append,
}
use eltex_modul.Common.Int.{pos, to_u32, of_u32}
use eltex_modul.Common.Text.{
  not_newline, cut_newline, cut_newline-text, cut_newline_id, c_str-line, Bytes, c_str, AllOf,
  not_zero, c_str_id, take_all,
}
use eltex_modul.Common.Decimal.{atoi, of_long, print_ℤ, read_long-print, InLong}
use eltex_modul.Chat.{
  Round, Ready, sendto, show, valid_port, choose_port, read_line, send_text, send_line, receive,
  chat_round, chat, buffer_size,
}

-- A text that one line and one packet carry whole.
pub record IsText (text : Bytes) : Type 0 where
  pub full : 0 < length text
  pub fits : length text + 1 < buffer_size
  pub string : AllOf not_zero text
  pub one_line : AllOf not_newline text

abbrev pub shown_round : ℕ → ℕ → Bytes → Round
shown_round local_address sender text = record {
  effects = if not (sender == local_address) then show sender text ∷ [] else [];
  buffer = text;
}

-- A line is sent without its newline.
pub send_line-text :
    (buffer text : Bytes)
    → IsText text
    → send_line buffer (some (text ++ 10 ∷ []))
      ≡ record { effects = sendto text ∷ []; buffer = text }
unfolding send_line read_line
send_line-text buffer [] h = absurd (omega (arith, h.full))
send_line-text buffer (b ∷ bs) h =
    let whole =
      take_all 1023 (b ∷ bs ++ 10 ∷ []) (omega (arith, h.fits, length-append (b ∷ bs) (10 ∷ []))) in
    ap send_text (
      ap (λ x. cut_newline (c_str x)) whole
      ∙ ap cut_newline (c_str-line (b ∷ bs) h.string)
      ∙ cut_newline-text (b ∷ bs) [] h.one_line)

pub receive-text :
    (local_address sender : ℕ) (buffer text : Bytes)
    → IsText text
    → receive local_address buffer (some (record { sender = sender; bytes = text })) ≡ record {
      effects = if not (sender == local_address) then show sender text ∷ [] else [];
      buffer = text;
    }
unfolding receive
receive-text local_address sender buffer [] h = absurd (omega (arith, h.full))
receive-text local_address sender buffer (b ∷ bs) h =
    let whole = take_all 1023 (b ∷ bs) (omega (arith, h.fits)) in
    ap (shown_round local_address sender) (ap c_str whole ∙ c_str_id (b ∷ bs) h.string)

abbrev pub said : Bytes → Ready
said text = record { socket = none; input = some (some (text ++ 10 ∷ [])) }

abbrev pub heard : ℕ → Bytes → Ready
heard sender text = record {
  socket = some (some (record { sender = sender; bytes = text }));
  input = none;
}

abbrev pub ended : Ready
ended = record { socket = none; input = some none }

-- A line of at most 1022 bytes that is typed at one end is sent whole, without its newline; and a
-- program that gets this packet from another address than its own shows it whole, once, under the
-- address that it came from. What the buffers held before plays no part.
pub line-packet :
    (local_address other_address sender : ℕ) (buffer other_buffer text : Bytes)
    → IsText text
    → sender ≢ other_address
    → ((chat_round local_address buffer (said text)).effects ≡ sendto text ∷ [])
      × ((chat_round other_address other_buffer (heard sender text)).effects
          ≡ show sender text ∷ [])
unfolding chat_round
line-packet local_address other_address sender buffer other_buffer text h ne =
    let other : (sender == other_address) ≡ false = ground (arith, ne) in
    (
      ap (λ (r : Round). r.effects) (send_line-text buffer text h),
      rw (receive-text other_address sender other_buffer text h, other, chat_round) refl,
    )

send_line-ended :
    (text : Bytes)
    → IsText text
    → send_line text none ≡ record { effects = sendto text ∷ []; buffer = text }
unfolding send_line read_line
send_line-ended [] h = absurd (omega (arith, h.full))
send_line-ended (b ∷ bs) h = ap send_text (cut_newline_id (b ∷ bs) h.one_line)

chat-ended :
    (local_address k : ℕ) (text : Bytes)
    → IsText text
    → (chat local_address text (replicate k ended)).effects ≡ replicate k (sendto text)
unfolding chat chat_round
chat-ended local_address zero text h = refl
chat-ended local_address (suc k) text h =
    rw (send_line-ended text h, chat)
      (ap (λ es. sendto text ∷ es) (chat-ended local_address k text h))

-- When the input has ended, the program sends what it was sent: the text of a packet that it gets is
-- sent to all again in every round after it, for as long as nothing else comes.
pub chat-echo :
    (local_address sender k : ℕ) (buffer text : Bytes)
    → IsText text
    → sender ≢ local_address
    → (chat local_address buffer (heard sender text ∷ replicate k ended)).effects
      ≡ show sender text ∷ replicate k (sendto text)
unfolding chat chat_round
chat-echo local_address sender k buffer text h ne =
    let other : (sender == local_address) ≡ false = ground (arith, ne) in
    rw (receive-text local_address sender buffer text h, chat)
      (rw other (ap (λ es. show sender text ∷ es) (chat-ended local_address k text h)))

int_of : (n k : ℕ) → n < 2 ^ 31 → of_u32 (to_u32 (pos (n + k * 2 ^ 32))) ≡ pos n
int_of n k h = ground arith

-- A port from 1 to 65535, printed, is the port that the program takes; but so is any number that a
-- long holds and that differs from such a port by a multiple of 2 to the 32.
pub port-print :
    (n k : ℕ)
    → 0 < n
    → n ≤ 65535
    → InLong (pos (n + k * 2 ^ 32))
    → choose_port (some (print_ℤ (pos (n + k * 2 ^ 32)))) ≡ some n
unfolding choose_port atoi
port-print n k low high long =
    ap (λ z. valid_port (of_long z)) (read_long-print (pos (n + k * 2 ^ 32)) long)
    ∙ ap valid_port (int_of n k (omega arith))
    ∙ ground arith
