-- ===== src/Client/Start.antt =====
-- main of 07/client.c from its arguments on, and what 07/server.c makes of its first and last messages.
use eltex_modul.Common.{
  ℕ, ◌≡◌, ◌<◌, refl, sym, ap, ◌∙◌, inl, inr, Bool, true, not, Option, none, some, List, [], ◌∷◌,
  ◌++◌, if◌then◌else◌, ltb, length, append_assoc, Bool-cases, Option-cases, arith,
}
use eltex_modul.Common.Int.{pos, ltb_ℤ}
use eltex_modul.Common.Text.{Bytes, utf8, take_all, snprintf}
use eltex_modul.Client.{Effect, send, close, Packets, message_size}
use eltex_modul.Client.Session.{
  Ready, State, username_size, farewell, select_round, select_loop, session,
}
use eltex_modul.Server.{Client, Server, Effect as Answer, max_clients, find_client_by_fd}
use eltex_modul.Server.Message.{Junk, handle_client_message}
use eltex_modul.Server.Connection.{handle_new_connection}
use eltex_modul.Server.Inv.{Inv}
use eltex_modul.Server.Admission.{IsFresh}
use eltex_modul.Server.Join.{IsName, greeting, Joined, greeting-Joined}
use eltex_modul.Server.Leave.{Departure, lost-Departure, close-lost}

-- What socket and connect answer.
pub record Answers : Type 0 where
  pub has_socket : Bool
  pub connects : Bool

-- exit(1); a write past an array; or the end of main, with what it has done.
pub data Outcome : Type 0 where
  refused : Outcome
  crashed : Outcome
  ended : List Effect → Outcome

abbrev pub of_session : Option (List Effect) → Outcome
of_session none = crashed
of_session (some es) = ended es

-- The arguments are those behind the name of the program. strcpy of the user name comes first.
unfoldable pub main : Answers → List Bytes → Bytes → List Ready → Packets → Outcome
main a [] buffer rounds packets = refused
main a (name ∷ more) buffer rounds packets =
    if not (ltb (length name) username_size)
    then crashed
    else if not a.has_socket
    then refused
    else if a.connects
    then of_session (session name buffer rounds packets)
    else refused

-- However the loop goes, the leave is the last that is done.
abbrev Leaves : Bytes → Option (List Effect) → Type 0
Leaves name none = Unit {0}
Leaves name (some es) = (middle : List Effect) × (es ≡ middle ++ farewell name)

select_loop-Leaves :
    (name : Bytes) (rounds : List Ready) (buffer : Bytes) (packets : Packets)
    → Leaves name (select_loop name rounds buffer packets)
unfolding select_loop
select_loop-Leaves name [] buffer packets = ([], refl)
select_loop-Leaves name (r ∷ rs) buffer packets =
    elim (Option-cases (select_round r buffer packets)) [
      | inl broken ↦ rw (broken, select_loop) tt
      | inr (s, went) ↦
          rw (went, select_loop)
            (after_round name s (select_loop name rs s.buffer s.packets)
              (select_loop-Leaves name rs s.buffer s.packets))
    ]
  where
    after_round :
        (name : Bytes) (s : State) (r : Option (List Effect))
        → Leaves name r
        → Leaves name (elim r [
          | none ↦ if s.running then none else some (s.effects ++ farewell name)
          | some es ↦ some (s.effects ++ (if s.running then es else farewell name))
        ])
    after_round name s none h = elim (Bool-cases s.running) [
      | inl runs ↦ rw runs tt
      | inr ends ↦ rw ends (s.effects, refl)
    ]
    after_round name s (some es) (middle, e) = elim (Bool-cases s.running) [
      | inl runs ↦ rw runs (
        s.effects ++ middle,
        ap (λ t. s.effects ++ t) e ∙ sym (append_assoc s.effects middle (farewell name)),
      )
      | inr ends ↦ rw ends (s.effects, refl)
    ]

-- The packets of a client and what they are at the server.
abbrev pub hello : Bytes → Bytes
hello name = utf8 "INIT:" ++ name

abbrev pub goodbye : Bytes → Bytes
goodbye name = utf8 "CLOSE:" ++ name

abbrev pub Stay : Bytes → Outcome → Type 0
Stay name refused = ⊥
Stay name crashed = Unit {0}
Stay name (ended es) =
    (middle : List Effect) × (es
      ≡ send (hello name) ∷ (middle ++ (send (goodbye name) ∷ close ∷ [])))

session-Stay :
    (name buffer : Bytes) (rounds : List Ready) (packets : Packets)
    → length name < username_size
    → Stay name (of_session (session name buffer rounds packets))
unfolding session
session-Stay name buffer rounds packets short =
    let t : ltb (length name) username_size ≡ true = ground (arith, short) in
    rw t
      (go (select_loop name rounds buffer packets) (select_loop-Leaves name rounds buffer packets))
  where
    go :
        (r : Option (List Effect))
        → Leaves name r
        → Stay name (
            of_session (elim r [
              | none ↦ none
              | some es ↦ some (send (snprintf message_size (utf8 "INIT:" ++ name)) ∷ es)
            ]))
    go none h = tt
    go (some es) (middle, e) = (
      middle,
      rw (e, take_all 4090 name (omega (arith, short)), take_all 4089 name (omega (arith, short)))
          refl,
    )

main-Stay :
    (a : Answers) (name : Bytes) (more : List Bytes) (buffer : Bytes) (rounds : List Ready)
    (packets : Packets)
    → a.has_socket ≡ true
    → a.connects ≡ true
    → length name < username_size
    → Stay name (main a (name ∷ more) buffer rounds packets)
unfolding main
main-Stay a name more buffer rounds packets socket connected short =
    let t : ltb (length name) username_size ≡ true = ground (arith, short) in
    rw (t, socket, connected) (session-Stay name buffer rounds packets short)

close-Departure :
    (s : Server) (n : ℕ) (c : Client) (name : Bytes) (junk : Junk)
    → Inv s
    → find_client_by_fd s (pos n) ≡ some c
    → Departure s (pos n) c (handle_client_message s (pos n) (some (goodbye name)) junk)
close-Departure s n c name junk v found =
    rw (close-lost s n c name junk v found) (lost-Departure s n c junk v found)

-- A user with a name of 1 to 31 bytes, without white space or zero bytes, starts the client, and it gets its
-- connection. Then, whatever the user types and the server sends, the client comes to its end, unless it
-- writes past an array, and first of all it has sent its greeting, last of all its goodbye, before
-- closing. A server in order, with room and with a new descriptor for it, makes of that greeting a
-- client of that name, with the notice to all others; and whenever a server in order has this client
-- and gets that goodbye, it takes it out, tells all others and closes its descriptor.
pub main-stays :
    (a : Answers) (name : Bytes) (more : List Bytes) (buffer : Bytes) (rounds : List Ready)
    (packets : Packets) (s u : Server) (n : ℕ) (c : Client) (old : Bytes) (junk : Junk)
    → a.has_socket ≡ true
    → a.connects ≡ true
    → IsName name
    → length name < username_size
    → Inv s
    → ltb_ℤ s.client_count (pos max_clients) ≡ true
    → IsFresh s (pos n)
    → Inv u
    → find_client_by_fd u (pos n) ≡ some c
    → Stay name (main a (name ∷ more) buffer rounds packets)
      × ((greeting n name old).packet ≡ some (hello name))
      × ((t : Server) × (es : List Answer) × (handle_new_connection s (greeting n name old)
            ≡ some (t, es))
          × Joined s (pos n) name t es)
      × Departure u (pos n) c (handle_client_message u (pos n) (some (goodbye name)) junk)
main-stays a name more buffer rounds packets s u n c old junk socket connected ok short v room new w
      found =
    (
      main-Stay a name more buffer rounds packets socket connected short,
      refl,
      greeting-Joined s n name old v room new ok short,
      close-Departure u n c name junk w found,
    )
