-- ===== src/Chat/Start.antt =====
-- main of 06/main.c around the loop: the socket, the message on entering, and signal_handler.
--
-- The program ends by SIGINT, which comes where the list of rounds ends.
use eltex_modul.Common.{
  ℕ, ◌+◌, ◌*◌, ◌^◌, ◌≡◌, ◌≢◌, ◌≤◌, ◌<◌, refl, ap, ◌∙◌, Bool, true, false, not, Option, none, some,
  List, [], ◌∷◌, ◌++◌, if◌then◌else◌, ◌==◌, map, arith, inl, inr, Bool-cases,
}
use eltex_modul.Common.Int.{pos}
use eltex_modul.Common.Decimal.{print_ℤ}
use eltex_modul.Common.Text.{Bytes, utf8}
use eltex_modul.Chat.{
  Effect, sendto, show, close, Ready, Packet, choose_port, receive, show_packet, socket_part,
  input_part, chat_round, chat,
}
use eltex_modul.Chat.Rounds.{IsText, heard, send_line-text, receive-text, port-print}

-- What socket, setsockopt for SO_BROADCAST and for SO_REUSEADDR, and bind answer; and getsockname.
pub record Answers : Type 0 where
  pub has_socket : Bool
  pub broadcasts : Bool
  pub reuses : Bool
  pub binds : ℕ → Bool
  pub local_address : ℕ

abbrev pub join_msg : Bytes
join_msg = utf8 "НОВЫЙ УЧАСТНИК ВОШЕЛ В ЧАТ"

abbrev pub leave_msg : Bytes
leave_msg = utf8 "УЧАСТНИК ПОКИНУЛ ЧАТ"

abbrev pub signal_handler : List Effect
signal_handler = sendto leave_msg ∷ close ∷ []

-- exit(1), or exit(0) in signal_handler, with the port that packets go to.
pub data Outcome : Type 0 where
  refused : Outcome
  left : ℕ → List Effect → Outcome

abbrev pub talk : ℕ → Bytes → List Ready → ℕ → Outcome
talk local_address buffer rounds port =
    left port (sendto join_msg ∷ ((chat local_address buffer rounds).effects ++ signal_handler))

unfoldable pub with_port : Answers → Bytes → List Ready → Option ℕ → Outcome
with_port a buffer rounds none = refused
with_port a buffer rounds (some port) =
    if not a.has_socket
    then refused
    else if not a.broadcasts
    then refused
    else if not a.reuses
    then refused
    else if a.binds port
    then talk a.local_address buffer rounds port
    else refused

-- `argument` is argv[1] if it is there, `buffer` what the array holds at first.
unfoldable pub main : Answers → Option Bytes → Bytes → List Ready → Outcome
unfolding choose_port with_port chat
main a argument buffer rounds = with_port a buffer rounds (choose_port argument)

-- Each of the texts is one that a line and a packet carry whole.
abbrev pub AllTexts : List Bytes → Type 0
AllTexts [] = Unit {0}
AllTexts (t ∷ ts) = IsText t × AllTexts ts

-- A round of one who types: what select finds on the socket, which may be anything, and a line.
pub record Turn : Type 0 where
  pub socket : Option (Option Packet)
  pub text : Option Bytes

-- The line with its newline; none where only the socket is ready.
abbrev pub typed_line : Option Bytes → Option (Option Bytes)
typed_line none = none
typed_line (some text) = some (some (text ++ 10 ∷ []))

abbrev pub ready_of : Turn → Ready
ready_of t = record { socket = t.socket; input = typed_line t.text }

-- The texts that are typed, and the texts that are sent.
abbrev pub and_text : Option Bytes → List Bytes → List Bytes
and_text none texts = texts
and_text (some text) texts = text ∷ texts

abbrev pub texts_of : List Turn → List Bytes
texts_of [] = []
texts_of (t ∷ ts) = and_text t.text (texts_of ts)

pub sent_texts : List Effect → List Bytes
sent_texts [] = []
sent_texts (sendto text ∷ es) = text ∷ sent_texts es
sent_texts (show sender text ∷ es) = sent_texts es
sent_texts (close ∷ es) = sent_texts es

sent_texts-append : (es fs : List Effect) → sent_texts (es ++ fs) ≡ sent_texts es ++ sent_texts fs
unfolding sent_texts
sent_texts-append [] fs = refl
sent_texts-append (sendto text ∷ es) fs = ap (λ ts. text ∷ ts) (sent_texts-append es fs)
sent_texts-append (show sender text ∷ es) fs = sent_texts-append es fs
sent_texts-append (close ∷ es) fs = sent_texts-append es fs

-- Nothing is sent for what comes on the socket.
socket_part-sent :
    (local_address : ℕ) (buffer : Bytes) (p : Option (Option Packet))
    → sent_texts (socket_part local_address buffer p).effects ≡ []
unfolding sent_texts receive
socket_part-sent local_address buffer none = refl
socket_part-sent local_address buffer (some none) = refl
socket_part-sent local_address buffer (some (some p)) = packet-sent p.sender p.bytes
  where
    packet-sent :
        (sender : ℕ) (bytes : Bytes)
        → sent_texts (show_packet local_address buffer sender bytes).effects ≡ []
    packet-sent sender [] = refl
    packet-sent sender (b ∷ bs) = elim (Bool-cases (sender == local_address)) [
      | inl e ↦ rw e refl
      | inr e ↦ rw e refl
    ]

-- What is typed is sent, whatever the buffer holds.
input_part-sent :
    (buffer : Bytes) (text : Option Bytes)
    → AllTexts (and_text text [])
    → sent_texts (input_part buffer (typed_line text)).effects ≡ and_text text []
unfolding sent_texts
input_part-sent buffer none h = refl
input_part-sent buffer (some text) h = rw (send_line-text buffer text h.0) refl

chat_round-sent :
    (local_address : ℕ) (buffer : Bytes) (t : Turn)
    → AllTexts (and_text t.text [])
    → sent_texts (chat_round local_address buffer (ready_of t)).effects ≡ and_text t.text []
unfolding chat_round
chat_round-sent local_address buffer t h =
    let first = socket_part local_address buffer t.socket in
    sent_texts-append first.effects (input_part first.buffer (typed_line t.text)).effects
    ∙ ap (λ ts. ts ++ sent_texts (input_part first.buffer (typed_line t.text)).effects)
        (socket_part-sent local_address buffer t.socket)
    ∙ input_part-sent first.buffer t.text h

-- Each of the turns has a text that a line carries whole, or none.
AllTexts-split :
    (text : Option Bytes) (texts : List Bytes)
    → AllTexts (and_text text texts)
    → AllTexts (and_text text [])
      × AllTexts texts
      × (and_text text [] ++ texts ≡ and_text text texts)
AllTexts-split none texts h = (tt, h, refl)
AllTexts-split (some text) texts h = ((h.0, tt), h.1, refl)

chat-said :
    (local_address : ℕ) (buffer : Bytes) (ts : List Turn)
    → AllTexts (texts_of ts)
    → sent_texts (chat local_address buffer (map ready_of ts)).effects ≡ texts_of ts
unfolding chat sent_texts
chat-said local_address buffer [] h = refl
chat-said local_address buffer (t ∷ ts) h =
    let (now, later, whole) = AllTexts-split t.text (texts_of ts) h in
    let first = chat_round local_address buffer (ready_of t) in
    let rest = chat local_address first.buffer (map ready_of ts) in
    sent_texts-append first.effects rest.effects
    ∙ ap (λ us. us ++ sent_texts rest.effects) (chat_round-sent local_address buffer t now)
    ∙ ap (λ us. and_text t.text [] ++ us) (chat-said local_address first.buffer ts later)
    ∙ whole

chat-heard :
    (local_address sender : ℕ) (buffer : Bytes) (texts : List Bytes)
    → AllTexts texts
    → sender ≢ local_address
    → (chat local_address buffer (map (heard sender) texts)).effects ≡ map (show sender) texts
unfolding chat chat_round
chat-heard local_address sender buffer [] h ne = refl
chat-heard local_address sender buffer (t ∷ ts) h ne =
    let other : (sender == local_address) ≡ false = ground (arith, ne) in
    rw (receive-text local_address sender buffer t h.0, chat)
      (rw other (ap (λ es. show sender t ∷ es) (chat-heard local_address sender t ts h.1 ne)))

join-IsText : IsText join_msg
join-IsText = record {
  full = omega arith;
  fits = omega arith;
  string = ground arith;
  one_line = ground arith;
}

leave-IsText : IsText leave_msg
leave-IsText = record {
  full = omega arith;
  fits = omega arith;
  string = ground arith;
  one_line = ground arith;
}

AllTexts-snoc :
    (texts : List Bytes) (t : Bytes) → AllTexts texts → IsText t → AllTexts (texts ++ t ∷ [])
AllTexts-snoc [] t h k = (k, tt)
AllTexts-snoc (u ∷ us) t h k = (h.0, AllTexts-snoc us t h.1 k)

-- What a participant says from the start to the end.
abbrev pub all_said : List Bytes → List Bytes
all_said texts = join_msg ∷ (texts ++ leave_msg ∷ [])

-- The calls that set the socket up work.
pub record Works (a : Answers) (port : ℕ) : Type 0 where
  pub socket : a.has_socket ≡ true
  pub broadcasts : a.broadcasts ≡ true
  pub reuses : a.reuses ≡ true
  pub binds : a.binds port ≡ true

port-taken : (n : ℕ) → 0 < n → n ≤ 65535 → choose_port (some (print_ℤ (pos n))) ≡ some n
port-taken n low high =
    let e : n ≡ n + 0 * 2 ^ 32 = omega arith in
    ap (λ m. choose_port (some (print_ℤ (pos m)))) e
    ∙ port-print n 0 low high (omega arith, omega arith)

-- Started with a port from 1 to 65535, with calls that work, a participant types any lines of 1 to 1022
-- bytes, with no zero byte, in any rounds, in each of which anything or nothing may come on the socket, its
-- own packets too, and ends by SIGINT. Then it has first sent to that port its entry; in the rounds it
-- has sent just the lines, in order; and then, to end with, it has sent its leave and closed the socket. And
-- another, that types nothing and gets these packets from an address that is not its own, shows each of
-- them whole, once and in order. What the buffers held before plays no part.
pub main-heard :
    (a : Answers) (port sender other_address : ℕ) (buffer other_buffer : Bytes) (ts : List Turn)
    → 0 < port
    → port ≤ 65535
    → Works a port
    → AllTexts (texts_of ts)
    → sender ≢ other_address
    → (es : List Effect) × (main a (some (print_ℤ (pos port))) buffer (map ready_of ts)
        ≡ left port (sendto join_msg ∷ (es ++ sendto leave_msg ∷ close ∷ [])))
      × (sent_texts es ≡ texts_of ts)
      × ((chat other_address other_buffer (map (heard sender) (all_said (texts_of ts)))).effects
          ≡ map (show sender) (all_said (texts_of ts)))
unfolding main with_port
main-heard a port sender other_address buffer other_buffer ts low high w h ne = (
  (chat a.local_address buffer (map ready_of ts)).effects,
  ap (with_port a buffer (map ready_of ts)) (port-taken port low high)
      ∙ rw (w.socket, w.broadcasts, w.reuses, w.binds) refl,
  chat-said a.local_address buffer ts h,
  chat-heard other_address sender other_buffer (all_said (texts_of ts))
      (join-IsText, AllTexts-snoc (texts_of ts) leave_msg h leave-IsText) ne,
)
