-- ===== src/Server/Relay.antt =====
-- What the chat of 07/server.c passes on from one client to the others.
use eltex_modul.Common.{
  ℕ, ◌+◌, ◌-◌, ◌≤◌, ◌<◌, ◌≡◌, ◌↔◌, refl, ap, sym, ◌∙◌, true, false, some, List, [], ◌∷◌, ◌++◌,
  arith, length, length-append,
}
use eltex_modul.Common.Int.{ℤ, pos, ◌==ℤ◌}
use eltex_modul.Common.Decimal.{InLong}
use eltex_modul.Common.Text.{Bytes, utf8, c_str, c_str_id, c_str_all, take_all, AllOf, not_zero}
use eltex_modul.FileHeader.{format_header, IsFileName, scan-format, c_str-format}
use eltex_modul.Server.{Client, Server, find_in, find_client_by_fd, broadcast_message}
use eltex_modul.Server.Message.{
  Junk, classify, perform, received, handle_client_message, relay_message, message_size, other,
}
use eltex_modul.Server.Inv.{Table, Inv, is_some}
use eltex_modul.Server.Connection.{name_size}
use eltex_modul.Server.Broadcast.{inbox, inbox-broadcast}
use eltex_modul.Server.Reach.{find_in-nonneg}

-- A packet that is not empty comes to the branch that its text takes.
pub packet-perform :
    (s : Server) (n : ℕ) (c : Client) (packet : Bytes) (junk : Junk)
    → Inv s
    → find_client_by_fd s (pos n) ≡ some c
    → 0 < length packet
    → handle_client_message s (pos n) (some packet) junk
      ≡ perform s (pos n) c (c_str packet) junk (classify (c_str packet))
unfolding handle_client_message find_client_by_fd
packet-perform s n c [] junk v found h = absurd (omega arith)
packet-perform s n c (b ∷ bs) junk v found h =
    let active = (find_in-nonneg (pos n) s.clients c v.table found).1 in
    rw (found, active, received) refl

-- The bytes that `recv` can put into a buffer of BUFFER_SIZE, with room for the final zero.
abbrev pub packet_max : ℕ
packet_max = 4095

-- The announcement of a file reaches the others byte for byte and leaves the table as it was, for
-- every name of 1 to 255 bytes without a colon and every size that a long holds, if one `recv` gives
-- the announcement alone.
pub relay-header :
    (s : Server) (n : ℕ) (c : Client) (name : Bytes) (size : ℤ) (junk : Junk)
    → Inv s
    → find_client_by_fd s (pos n) ≡ some c
    → IsFileName name
    → InLong size
    → length (format_header name size) ≤ packet_max
    → handle_client_message s (pos n) (some (format_header name size)) junk
      ≡ (s, broadcast_message s (pos n) (format_header name size))
unfolding perform format_header classify
relay-header s n c name size junk v found h k fits =
    packet-perform s n c (format_header name size) junk v found (omega arith)
    ∙ rw (c_str-format name size h.text, scan-format name size h k)
        (ap (λ m. (s, broadcast_message s (pos n) m)) (take_all (message_size - 1) _ (omega arith)))

name-short :
    (fd : ℤ) (cs : List Client) (c : Client)
    → Table cs
    → find_in fd cs ≡ some c
    → length c.name < name_size
unfolding find_in
name-short fd [] c t e = cc
name-short fd (d ∷ cs) c t e = ground (arith, name-short fd cs c t.2)

-- What the others read of the text that `name` says.
unfoldable pub said : Bytes → Bytes → Bytes
said name text = utf8 "MES:[" ++ (name ++ (utf8 "] " ++ text))

length-said : (name text : Bytes) → length (said name text) ≡ 7 + length name + length text
unfolding said
length-said name text = omega (arith, length-append name (utf8 "] " ++ text))

-- A message without a zero byte reaches the others whole, behind the sender's name in brackets, and
-- leaves the table as it was: no message that `recv` can give is cut by the buffer of the handler.
pub relay-mes :
    (s : Server) (n : ℕ) (c : Client) (text : Bytes) (junk : Junk)
    → Inv s
    → find_client_by_fd s (pos n) ≡ some c
    → AllOf not_zero text
    → length (utf8 "MES:" ++ text) ≤ packet_max
    → handle_client_message s (pos n) (some (utf8 "MES:" ++ text)) junk
      ≡ (s, broadcast_message s (pos n) (said c.name text))
unfolding perform classify relay_message c_str said find_client_by_fd
relay-mes s n c text junk v found h fits =
    packet-perform s n c (utf8 "MES:" ++ text) junk v found (omega arith)
    ∙ rw (c_str_id text h) (
        ap (λ m. (s, broadcast_message s (pos n) m))
          (take_all (message_size - 1) (said c.name text)
            (omega (arith, length-said c.name text, name-short (pos n) s.clients c v.table found))))

-- A packet that is no request is a piece of a file. Every other active client is sent it up to its
-- first zero byte, so that the piece arrives whole exactly when it holds no zero byte.
pub relay-data :
    (s : Server) (n : ℕ) (c : Client) (packet : Bytes) (junk : Junk) (fd : ℤ)
    → Inv s
    → find_client_by_fd s (pos n) ≡ some c
    → 0 < length packet
    → classify (c_str packet) ≡ other
    → is_some (find_client_by_fd s fd) ≡ true
    → (fd ==ℤ pos n) ≡ false
    → (inbox fd (handle_client_message s (pos n) (some packet) junk).1 ≡ c_str packet ∷ [])
      × ((inbox fd (handle_client_message s (pos n) (some packet) junk).1 ≡ packet ∷ [])
          ↔ AllOf not_zero packet)
unfolding perform
relay-data s n c packet junk fd v found h e there apart =
    let sent : inbox fd (handle_client_message s (pos n) (some packet) junk).1 ≡ c_str packet ∷ [] =
      rw (packet-perform s n c packet junk v found h, e, perform)
        (inbox-broadcast s (pos n) (c_str packet) fd v ∙ rw (there, apart) refl) in
    (
      sent,
      (λ q. c_str_all packet (cc (sym sent ∙ q)), λ q. sent ∙ ap (λ t. t ∷ []) (c_str_id packet q)),
    )
