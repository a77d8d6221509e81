-- ===== src/Client/Console.antt =====
-- What the user of 07/client.c types, on its way through 07/server.c to the other users.
use eltex_modul.Common.{
  ℕ, zero, suc, replicate, ◌-◌, ◌≡◌, ◌↔◌, refl, ap, ◌∙◌, ◌≤◌, ◌<◌, Bool, true, false, Option, none,
  some, [], ◌∷◌, ◌++◌, ltb, length, arith, Bool-cases, inl, inr, length-append, append_assoc,
  append-nil,
}
use eltex_modul.Common.Int.{ℤ, pos}
use eltex_modul.Common.Decimal.{InLong}
use eltex_modul.Common.Text.{
  Bytes, utf8, c_str, c_str_id, AllOf, AllOf-append, not_zero, span, span-all, span-whole, str_eq,
  take_all,
}
use eltex_modul.FileHeader.{format_header, IsFileName, scan-format, c_str-format}
use eltex_modul.Client.{
  send, show, Packets, Junk, command_size, message_size, not_blank, skip_blanks,
  handle_console_command, handle_server_message, receive_file,
}
use eltex_modul.Server.{Client, Server, find_client_by_fd, broadcast_message}
use eltex_modul.Server.Message
use eltex_modul.Server.Message.{handle_client_message}
use eltex_modul.Server.Inv.{Inv}
use eltex_modul.Server.Relay.{said, relay-mes, packet_max}

-- A first word without blanks.
pub record IsWord (word : Bytes) : Type 0 where
  pub full : 0 < length word
  pub solid : AllOf not_blank word

-- Nothing, or a blank and more.
abbrev pub tail : Option Bytes → Bytes
tail none = []
tail (some more) = 32 ∷ more

abbrev pub line : Bytes → Option Bytes → Bytes
line word behind = word ++ tail behind

skip_blanks-word :
    (word : Bytes) (behind : Option Bytes)
    → IsWord word
    → skip_blanks (line word behind) ≡ line word behind
unfolding skip_blanks
skip_blanks-word [] behind h = absurd (omega (arith, h.full))
skip_blanks-word (c ∷ cs) behind h = ground (arith, h.solid)

first_word :
    (word : Bytes) (behind : Option Bytes)
    → IsWord word
    → span not_blank (length (line word behind)) (line word behind) ≡ (word, tail behind)
first_word word none h =
    ap (λ l. span not_blank (length l) l) (append-nil word)
    ∙ span-whole not_blank (length word) word h.solid (omega arith)
first_word word (some more) h =
    span-all not_blank (length (line word (some more))) word 32 more h.solid
      (omega (arith, length-append word (32 ∷ more))) refl

-- A line that begins with a word, and not with a blank, overflows the array that the word is copied to
-- exactly when the word has 30 bytes or more, whatever file there is.
pub console-overflow :
    (word : Bytes) (behind : Option Bytes) (file : Option Bytes)
    → IsWord word
    → (handle_console_command (line word behind) file ≡ none) ↔ (command_size ≤ length word)
unfolding handle_console_command
console-overflow word behind file h =
    rw (skip_blanks-word word behind h, first_word word behind h)
      (elim (Bool-cases (ltb (length word) command_size)) [
        | inl fits ↦ rw fits (λ q. cc, λ q. ground arith)
        | inr over ↦ rw over (λ q. ground arith, λ q. refl)
      ])

pub console-send :
    (word : Bytes) (behind : Option Bytes) (file : Option Bytes)
    → IsWord word
    → length word < command_size
    → str_eq word (utf8 "/file") ≡ false
    → length (utf8 "MES:" ++ line word behind) ≤ packet_max
    → handle_console_command (line word behind) file
      ≡ some (send (utf8 "MES:" ++ line word behind) ∷ show (utf8 "> ") ∷ [])
unfolding handle_console_command
console-send word behind file h short other fits =
    let t : ltb (length word) command_size ≡ true = ground arith in
    rw (skip_blanks-word word behind h, first_word word behind h, t, other)
      (ap (λ m. some (send m ∷ show (utf8 "> ") ∷ []))
        (take_all (message_size - 1) (utf8 "MES:" ++ line word behind) fits))

-- Blanks in front of a line.
abbrev pub indented : ℕ → Bytes → Bytes
indented n text = replicate n 32 ++ text

skip_blanks-indented : (n : ℕ) (text : Bytes) → skip_blanks (indented n text) ≡ skip_blanks text
unfolding skip_blanks
skip_blanks-indented zero text = refl
skip_blanks-indented (suc n) text = skip_blanks-indented n text

console-indented :
    (n : ℕ) (text : Bytes) (file : Option Bytes)
    → handle_console_command (indented n text) file ≡ handle_console_command text file
unfolding handle_console_command
console-indented n text file = rw (skip_blanks-indented n text) refl

show-said :
    (name text : Bytes) (opened : Bool) (junk : Junk) (ps : Packets)
    → AllOf not_zero name
    → AllOf not_zero text
    → (handle_server_message opened (some (said name text)) junk ps).effects
      ≡ show (utf8 "\r[" ++ (name ++ (utf8 "] " ++ (text ++ utf8 "\n")))) ∷ show (utf8 "> ") ∷ []
unfolding handle_server_message said c_str
show-said name text opened junk ps hn ht =
    rw (c_str_id (name ++ (utf8 "] " ++ text)) (AllOf-append not_zero name _ hn (refl, (refl, ht))))
      (ap (λ r. show (utf8 "\r[" ++ r) ∷ show (utf8 "> ") ∷ [])
        (append_assoc name (utf8 "] " ++ text) (utf8 "\n")))

-- What one user says, the others see. For a line of any blanks and then a word, alone or with a blank and
-- more behind it, whose word has fewer than 30 bytes and is not "/file", and which from the word on holds no
-- zero byte and fits one packet: the client sends one packet; given that packet, the server in a state
-- that meets the invariant broadcasts one text and keeps its table; and a client that gets that text shows
-- the sender's name in brackets and the line from the word on.
pub say-show :
    (blanks : ℕ) (word : Bytes) (behind : Option Bytes) (file : Option Bytes)
    → IsWord word
    → length word < command_size
    → str_eq word (utf8 "/file") ≡ false
    → AllOf not_zero (line word behind)
    → length (utf8 "MES:" ++ line word behind) ≤ packet_max
    → (s : Server) (n : ℕ) (c : Client) (junk : Message.Junk) → Inv s
    → find_client_by_fd s (pos n) ≡ some c
    → AllOf not_zero c.name
    → (opened : Bool) (own : Junk) (ps : Packets)
    → (packet : Bytes) × (text : Bytes) × (handle_console_command
          (indented blanks (line word behind))
          file
        ≡ some (send packet ∷ show (utf8 "> ") ∷ []))
      × (handle_client_message s (pos n) (some packet) junk ≡ (s, broadcast_message s (pos n) text))
      × ((handle_server_message opened (some text) own ps).effects
          ≡ show (utf8 "\r[" ++ (c.name ++ (utf8 "] " ++ (line word behind ++ utf8 "\n"))))
            ∷ show (utf8 "> ")
            ∷ [])
say-show blanks word behind file h short other text fits s n c junk v found name opened own ps = (
  utf8 "MES:" ++ line word behind,
  said c.name (line word behind),
  console-indented blanks (line word behind) file
      ∙ console-send word behind file h short other fits,
  relay-mes s n c (line word behind) junk v found text fits,
  show-said c.name (line word behind) opened own ps name text,
)

-- A client that gets the announcement of a file receives a file of just that name and size, for every
-- name of 1 to 255 bytes without a colon and every size that a long holds.
pub announce-receive :
    (name : Bytes) (size : ℤ) (opened : Bool) (junk : Junk) (ps : Packets)
    → IsFileName name
    → InLong size
    → ((handle_server_message opened (some (format_header name size)) junk ps).effects
        ≡ (receive_file opened name size ps).0 ++ show (utf8 "> ") ∷ [])
      × ((handle_server_message opened (some (format_header name size)) junk ps).rest
          ≡ (receive_file opened name size ps).1)
unfolding handle_server_message format_header
announce-receive name size opened junk ps h k =
    rw (c_str-format name size h.text, scan-format name size h k) (refl, refl)
