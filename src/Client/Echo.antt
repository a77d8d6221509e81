-- ===== src/Client/Echo.antt =====
-- The client of 07/client.c when its input ends.
use eltex_modul.Common.{
  ℕ, zero, suc, ◌-◌, ◌≤◌, ◌<◌, ◌≡◌, refl, ap, ◌∙◌, true, false, Option, none, some, List, [], ◌∷◌,
  ◌++◌, ltb, ◌==◌, length, length-append, replicate, arith, if◌then◌else◌,
}
use eltex_modul.Common.Int.{pos}
use eltex_modul.Common.Text.{
  Bytes, utf8, c_str, AllOf, not_zero, not_newline, str_eq, take_all, cut_newline, cut_newline-text,
  cut_newline_id, c_str-line,
}
use eltex_modul.Client.{
  Effect, send, show, close, command_size, message_size, Packets, handle_console_command,
}
use eltex_modul.Client.Console.{IsWord, tail, line, console-send}
use eltex_modul.Client.Session.{
  Ready, username_size, server_part, read_input, input_part, typed_part, select_round, farewell,
  select_loop, session,
}
use eltex_modul.Server.Relay.{packet_max}

-- A line that is sent as it is: it begins with a word, not with a blank, which is shorter than its array
-- and not "/file".
pub record IsSaid (word : Bytes) (behind : Option Bytes) : Type 0 where
  pub solid : IsWord word
  pub short : length word < command_size
  pub other : str_eq word (utf8 "/file") ≡ false
  pub string : AllOf not_zero (line word behind)
  pub one_line : AllOf not_newline (line word behind)
  pub fits : length (utf8 "MES:" ++ line word behind) ≤ packet_max

-- A round in which only the keyboard is ready.
abbrev pub typed : Option Bytes → Ready
typed input = record {
  socket = false;
  input = some input;
  opened = false;
  file = none;
  junk = record { name = []; size = pos 0 };
}

abbrev pub said_again : ℕ → Bytes → List Effect
said_again zero text = []
said_again (suc k) text = send (utf8 "MES:" ++ text) ∷ show (utf8 "> ") ∷ said_again k text

line-full :
    (word : Bytes) (behind : Option Bytes) → IsWord word → (length (line word behind) == 0) ≡ false
line-full word behind h = ground (arith, h.full, length-append word (tail behind))

typed_part-line :
    (word : Bytes) (behind : Option Bytes) (input : Option Bytes)
    → IsSaid word behind
    → typed_part (typed input) (line word behind)
      ≡ some (line word behind, send (utf8 "MES:" ++ line word behind) ∷ show (utf8 "> ") ∷ [])
typed_part-line word behind input h =
    let noted = λ (m : Option (List Effect)). elim m as (λ m. Option (Bytes × List Effect)) [
      | none ↦ none
      | some es ↦ some (line word behind, es)
    ] in
    let command = handle_console_command (line word behind) none in
    ap (λ b. noted (if b then some (show (utf8 "> ") ∷ []) else command))
      (line-full word behind h.solid)
    ∙ ap noted (console-send word behind none h.solid h.short h.other h.fits)

select_round-line :
    (word : Bytes) (behind : Option Bytes) (buffer : Bytes) (input : Option Bytes) (ps : Packets)
    → IsSaid word behind
    → cut_newline (read_input buffer input) ≡ line word behind
    → select_round (typed input) buffer ps
      ≡ some (record {
        running = true;
        buffer = line word behind;
        packets = ps;
        effects = send (utf8 "MES:" ++ line word behind) ∷ show (utf8 "> ") ∷ [];
      })
unfolding select_round server_part
select_round-line word behind buffer input ps h e =
    let part : input_part (typed input) buffer (some input)
        ≡ some (line word behind, send (utf8 "MES:" ++ line word behind) ∷ show (utf8 "> ") ∷ []) =
      ap (typed_part (typed input)) e ∙ typed_part-line word behind input h in
    ap
      (λ b. elim b [
        | none ↦ none
        | some b' ↦ some (record { running = true; buffer = b'.0; packets = ps; effects = b'.1 })
      ])
      part

read_input-line :
    (word : Bytes) (behind : Option Bytes) (buffer : Bytes)
    → IsSaid word behind
    → cut_newline (read_input buffer (some (line word behind ++ 10 ∷ []))) ≡ line word behind
unfolding read_input
read_input-line word behind buffer h =
    let text = line word behind in
    let whole =
      take_all (message_size - 1) (text ++ 10 ∷ [])
        (omega (arith, h.fits, length-append text (10 ∷ []), length-append (utf8 "MES:") text)) in
    ap (λ x. cut_newline (c_str x)) whole
    ∙ ap cut_newline (c_str-line text h.string)
    ∙ cut_newline-text text [] h.one_line

select_loop-line :
    (name word : Bytes) (behind : Option Bytes) (buffer : Bytes) (input : Option Bytes)
    (rs : List Ready) (ps : Packets) (es : List Effect)
    → IsSaid word behind
    → cut_newline (read_input buffer input) ≡ line word behind
    → select_loop name rs (line word behind) ps ≡ some es
    → select_loop name (typed input ∷ rs) buffer ps
      ≡ some (send (utf8 "MES:" ++ line word behind) ∷ show (utf8 "> ") ∷ es)
unfolding select_loop
select_loop-line name word behind buffer input rs ps es h e f =
    ap
      (λ m. elim m as (λ m. Option (List Effect)) [
        | none ↦ none
        | some s ↦ elim (select_loop name rs s.buffer s.packets) [
          | none ↦ if s.running then none else some (s.effects ++ farewell name)
          | some r ↦ some (s.effects ++ (if s.running then r else farewell name))
        ]
      ])
      (select_round-line word behind buffer input ps h e)
    ∙ rw f refl

select_loop-nil :
    (name buffer : Bytes) (ps : Packets) → select_loop name [] buffer ps ≡ some (farewell name)
unfolding select_loop
select_loop-nil name buffer ps = refl

read_input-ended :
    (text : Bytes) → AllOf not_newline text → cut_newline (read_input text none) ≡ text
unfolding read_input
read_input-ended text h = cut_newline_id text h

select_loop-ended :
    (name word : Bytes) (behind : Option Bytes) (k : ℕ) (ps : Packets)
    → IsSaid word behind
    → select_loop name (replicate k (typed none)) (line word behind) ps
      ≡ some (said_again k (line word behind) ++ farewell name)
select_loop-ended name word behind zero ps h = select_loop-nil name (line word behind) ps
select_loop-ended name word behind (suc k) ps h =
    select_loop-line name word behind (line word behind) none (replicate k (typed none)) ps
      (said_again k (line word behind) ++ farewell name) h
      (read_input-ended (line word behind) h.one_line) (select_loop-ended name word behind k ps h)

-- A user types one line that begins with a word of fewer than 30 bytes, not with a blank and not with the
-- word "/file", alone or with a blank and more behind it, that has no zero byte and fits one packet; then the
-- input ends, while the server says nothing. The client, whose user name fits its array, announces itself, sends the line, sends it
-- again in each round after it, as the end of the input leaves the line in the buffer, and takes its
-- leave when it is interrupted.
pub session-echo :
    (name word : Bytes) (behind : Option Bytes) (buffer : Bytes) (k : ℕ) (ps : Packets)
    → length name < username_size
    → IsSaid word behind
    → session name buffer (typed (some (line word behind ++ 10 ∷ [])) ∷ replicate k (typed none)) ps
      ≡ some (
          send (utf8 "INIT:" ++ name)
          ∷ (said_again (suc k) (line word behind) ++ (send (utf8 "CLOSE:" ++ name) ∷ close ∷ [])))
unfolding session
session-echo name word behind buffer k ps short h =
    let t : ltb (length name) username_size ≡ true = ground (arith, short) in
    let all =
      select_loop-line name word behind buffer (some (line word behind ++ 10 ∷ []))
        (replicate k (typed none)) ps (said_again k (line word behind) ++ farewell name) h
        (read_input-line word behind buffer h) (select_loop-ended name word behind k ps h) in
    rw (t, all)
      (rw (take_all 4090 name (omega (arith, short)), take_all 4089 name (omega (arith, short)))
        refl)
