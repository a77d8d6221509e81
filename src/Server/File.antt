-- ===== src/Server/File.antt =====
-- `broadcast_file` of 07/server.c, which nothing calls.
use eltex_modul.Common.{
  ℕ, ◌≡◌, refl, ap, ◌∙◌, Bool, true, false, not, ◌&&◌, Option, none, some, List, [], ◌∷◌, ◌++◌,
  if◌then◌else◌, arith, length, joined,
}
use eltex_modul.Common.Int.{ℤ, pos, ◌==ℤ◌}
use eltex_modul.Common.Text.{Bytes, utf8, snprintf}
use eltex_modul.Common.Decimal.{print_ℤ}
use eltex_modul.FileHeader.{format_header}
use eltex_modul.Client.{blocks}
use eltex_modul.Client.Transfer.{blocks-joined}
use eltex_modul.Server.{Server, Effect, send, find_client_by_fd, send_others, broadcast_message}
use eltex_modul.Server.Inv.{is_some, Inv, ==ℤ→eq, ==ℤ_refl}
use eltex_modul.Server.Broadcast.{inbox, inbox-append, inbox-send_others}

abbrev pub missing_msg : Bytes → Bytes
missing_msg filename = snprintf 256 (utf8 "Ошибка: файл " ++ (filename ++ utf8 " не найден"))

abbrev pub success_msg : Bytes → ℕ → Bytes
success_msg filename size = snprintf 256 (
    utf8 "Файл "
    ++ (filename ++ (utf8 " отправлен всем (размер: " ++ (print_ℤ (pos size) ++ utf8 " байт)"))))

-- The blocks of the file, each to all the other clients.
unfoldable pub broadcast_blocks : Server → ℤ → List Bytes → List Effect
unfolding send_others
broadcast_blocks s sender [] = []
broadcast_blocks s sender (b ∷ bs) = send_others sender b s.clients ++ broadcast_blocks s sender bs

-- `file` is what `fopen` finds, `filename` a C string.
unfoldable pub broadcast_file : Server → ℤ → Bytes → Option Bytes → List Effect
unfolding broadcast_message broadcast_blocks blocks
broadcast_file s sender filename none = send sender (missing_msg filename) ∷ []
broadcast_file s sender filename (some bytes) =
    broadcast_message s sender (snprintf 256 (format_header filename (pos (length bytes))))
    ++ (broadcast_blocks s sender (blocks (length bytes) bytes)
        ++ (send_others sender (utf8 "FILE_END") s.clients
            ++ send sender (success_msg filename (length bytes)) ∷ []))

module _ (s : Server) (sender fd : ℤ) (v : Inv s) where
  -- Whether `fd` is to get the file.
  abbrev listens : Bool
  listens = is_some (find_client_by_fd s fd) && not (fd ==ℤ sender)

  inbox-others :
      (m : Bytes) → inbox fd (send_others sender m s.clients) ≡ (if listens then m ∷ [] else [])
  unfolding find_client_by_fd
  inbox-others m = inbox-send_others sender m fd s.clients v.table

  inbox-blocks :
      (bs : List Bytes) → inbox fd (broadcast_blocks s sender bs) ≡ (if listens then bs else [])
  unfolding inbox broadcast_blocks
  inbox-blocks [] = ground arith
  inbox-blocks (b ∷ bs) =
      inbox-append fd (send_others sender b s.clients) (broadcast_blocks s sender bs)
      ∙ ground (arith, inbox-others b, inbox-blocks bs)

-- What each descriptor gets of a file that is there.
abbrev pub file_delivery : Server → ℤ → ℤ → Bytes → Bytes → List Bytes
file_delivery s sender fd filename bytes =
    if is_some (find_client_by_fd s fd) && not (fd ==ℤ sender)
    then snprintf 256 (format_header filename (pos (length bytes)))
      ∷ (blocks (length bytes) bytes ++ utf8 "FILE_END" ∷ [])
    else if fd ==ℤ sender
    then success_msg filename (length bytes) ∷ []
    else []

sym_test : (a b : ℤ) → (a ==ℤ b) ≡ (b ==ℤ a)
sym_test a b = ground (arith, ==ℤ→eq a b, ==ℤ→eq b a, ==ℤ_refl a)

inbox-one :
    (fd sender : ℤ) (m : Bytes)
    → inbox fd (send sender m ∷ []) ≡ (if fd ==ℤ sender then m ∷ [] else [])
unfolding inbox
inbox-one fd sender m = ground (arith, sym_test fd sender)

assemble :
    (b c : Bool) (x z : Bytes) (ys : List Bytes) (w : List Bytes)
    → (if b && not c then x ∷ [] else [])
        ++ ((if b && not c then ys else [])
            ++ ((if b && not c then z ∷ [] else []) ++ (if c then w else [])))
      ≡ (if b && not c then x ∷ (ys ++ z ∷ []) else (if c then w else []))
assemble true true x z ys w = refl
assemble true false x z ys w = refl
assemble false true x z ys w = refl
assemble false false x z ys w = refl

-- `broadcast_file` with a file that is there, from any table that holds the invariant: each active
-- client but the sender gets the header, the blocks of the file and the end mark, in this order and
-- nothing else; the sender gets the confirmation alone, and any other descriptor nothing. The blocks
-- put together are the file.
pub inbox-broadcast_file :
    (s : Server) (sender fd : ℤ) (filename bytes : Bytes)
    → Inv s
    → (inbox fd (broadcast_file s sender filename (some bytes))
        ≡ file_delivery s sender fd filename bytes)
      × (joined (blocks (length bytes) bytes) ≡ bytes)
unfolding broadcast_file broadcast_message
inbox-broadcast_file s sender fd filename bytes v =
    let header = snprintf 256 (format_header filename (pos (length bytes))) in
    let parts = blocks (length bytes) bytes in
    let final = success_msg filename (length bytes) in
    let first = send_others sender header s.clients in
    let middle = broadcast_blocks s sender parts in
    let last = send_others sender (utf8 "FILE_END") s.clients in
    let end = send sender final ∷ [] in
    (
      inbox-append fd first (middle ++ (last ++ end))
          ∙ ap (λ r. inbox fd first ++ r)
              (inbox-append fd middle (last ++ end)
                ∙ ap (λ r. inbox fd middle ++ r) (inbox-append fd last end))
          ∙ (λ i.
              inbox-others s sender fd v header i
              ++ (inbox-blocks s sender fd v parts i
                  ++ (inbox-others s sender fd v (utf8 "FILE_END") i
                      ++ inbox-one fd sender final i)))
          ∙ assemble (is_some (find_client_by_fd s fd)) (fd ==ℤ sender) header (utf8 "FILE_END")
              parts (final ∷ []),
      blocks-joined (length bytes) bytes (omega arith),
    )
