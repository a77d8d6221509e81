-- ===== src/Copier.antt =====
-- The copier of files through a pipe, 01/main.c.
--
-- The pipe from the parent to the child is the list of the bytes written into it. The parent writes
-- all of them, closes its end, and the child reads them: a `read` gives as many bytes as it asks for,
-- fewer only at the end. (Every write is shorter than PIPE_BUF, so no read of the child can see a part
-- of one.) A Message lies in memory as two little-endian ints and the name. The calls that write never
-- fail here, and argv is what getopt leaves.
pub mod Copy
pub mod Ends
pub mod Fuel
pub mod Info
pub mod Layout
pub mod Parent
pub mod Pieces
pub mod Start
pub mod Whole
mod Tests
use eltex_modul.Common.{
  ℕ, zero, suc, ◌+◌, ◌-◌, ◌*◌, ◌%◌, ◌/◌, ◌^◌, Bool, true, false, not, ◌&&◌, ◌||◌, Option, none,
  some, List, [], ◌∷◌, ◌++◌, if◌then◌else◌, ltb, leb, ◌==◌, length, take, drop,
}
use eltex_modul.Common.Int.{to_u32, of_u32, ℤ, pos, negsuc, ltb_ℤ, ◌+ℤ◌, ◌==ℤ◌}
use eltex_modul.Common.Text.{Bytes, utf8, c_str, snprintf}

-- MAX_FILENAME and BUFFER_LENGTH.
abbrev pub max_filename : ℕ
max_filename = 256

abbrev pub buffer_length : ℕ
buffer_length = 256

abbrev pub msg_ready : ℤ
msg_ready = pos 1

abbrev pub msg_file_info : ℤ
msg_file_info = pos 2

abbrev pub msg_data : ℤ
msg_data = pos 3

abbrev pub msg_done : ℤ
msg_done = pos 4

-- The field `type` is `kind` here.
pub record Message : Type 0 where
  pub kind : ℤ
  pub size : ℤ
  pub filename : Bytes

abbrev pub le32 : ℕ → Bytes
le32 u = u % 256 ∷ u / 256 % 256 ∷ u / 65536 % 256 ∷ u / 16777216 % 256 ∷ []

abbrev pub of_le : Bytes → ℕ
of_le [] = 0
of_le (b ∷ bs) = b + 256 * of_le bs

-- The bytes of a Message in memory.
unfoldable pub encode : Message → Bytes
encode m = le32 (to_u32 m.kind) ++ (le32 (to_u32 m.size) ++ m.filename)

unfoldable pub decode : Bytes → Message
decode bytes = record {
  kind = of_u32 (of_le (take 4 bytes));
  size = of_u32 (of_le (take 4 (drop 4 bytes)));
  filename = take max_filename (drop 8 bytes);
}

abbrev pub sizeof_message : ℕ
sizeof_message = 264

-- `read(fd, &msg, sizeof(Message))`: `none` at the end of the pipe. What is not read stays as it was.
unfoldable pub read_msg : Message → Bytes → Option (Message × Bytes)
read_msg m [] = none
read_msg m (b ∷ bs) =
    let got = take sizeof_message (b ∷ bs) in
    some (decode (got ++ drop (length got) (encode m)), drop sizeof_message (b ∷ bs))

-- What a call gives: a value, the end of the process by `exit`, an access out of bounds, or no end
-- within the fuel.
pub data Result {ℓ} (A : Type ℓ) : Type ℓ where
  ok : A → Result A
  exited : Result A
  fault : Result A
  stuck : Result A

abbrev pub map_result {ℓ κ} : {A : Type ℓ} {B : Type κ} → (A → B) → Result A → Result B
map_result f (ok a) = ok (f a)
map_result f exited = exited
map_result f fault = fault
map_result f stuck = stuck

pub data Effect : Type 0 where
  create : Bytes → Effect
  write : Bytes → Effect
  close : Effect

-- The child after a file: `returned` when the end came before all the bytes.
pub record Received : Type 0 where
  pub effects : List Effect
  pub msg : Message
  pub pipe : Bytes
  pub returned : Bool

-- One round of the loop that receives the bytes of a file: the end of the loop, or another round.
pub data Round : Type 0 where
  leave : Received → Round
  overrun : Round
  again : List Effect → ℤ → Message → Bytes → Round

abbrev pub got_data : ℤ → Message → Bytes → Bytes → Round
got_data received m [] pipe = again [] received m pipe
got_data received m (b ∷ bs) pipe =
    again (write (b ∷ bs) ∷ []) (received +ℤ pos (length (b ∷ bs))) m pipe

-- A length that is negative or above BUFFER_LENGTH makes `read` overrun the buffer.
unfoldable pub read_data : ℤ → Message → ℤ → Bytes → Round
read_data received m (negsuc n) pipe = overrun
read_data received m (pos n) pipe =
    if leb n buffer_length then got_data received m (take n pipe) (drop n pipe) else overrun

abbrev pub gone : Message → Bytes → Bool → Round
gone m pipe returned =
    leave (record { effects = close ∷ []; msg = m; pipe = pipe; returned = returned })

unfoldable pub after_header : ℤ → Message → Bytes → Round
unfolding read_data
after_header received m pipe =
    if m.kind ==ℤ msg_done
    then gone m pipe true
    else if m.kind ==ℤ msg_data
    then read_data received m m.size pipe
    else again [] received m pipe

abbrev pub next_header : ℤ → Message → Bytes → Option (Message × Bytes) → Round
next_header received m pipe none = gone m pipe false
next_header received m pipe (some r) = after_header received r.0 r.1

unfoldable pub receive_round : ℤ → ℤ → Message → Bytes → Round
unfolding read_msg after_header
receive_round total received m pipe =
    if ltb_ℤ received total
    then next_header received m pipe (read_msg m pipe)
    else gone m pipe false

abbrev pub with_effects : List Effect → Received → Received
with_effects es r = record r { effects = es ++ r.effects }

-- The loop that receives the bytes of a file, on fuel.
unfoldable pub receive_data : ℕ → ℤ → ℤ → Message → Bytes → Result Received
unfolding receive_round
receive_data zero total received m pipe = stuck
receive_data (suc fuel) total received m pipe = elim (receive_round total received m pipe) [
  | leave r ↦ ok r
  | overrun ↦ fault
  | again es received' m' pipe' ↦
      map_result (with_effects es) (receive_data fuel total received' m' pipe')
]

abbrev pub has_zero : Bytes → Bool
has_zero [] = false
has_zero (b ∷ bs) = (b == 0) || has_zero bs

abbrev pub copied_file : Bytes → Bytes
copied_file filename = snprintf (max_filename + 10) (c_str filename ++ utf8 ".copy")

-- A message with the information about a file.
unfoldable pub file_info : (Bytes → Bool) → Message → Bytes → Result Received
unfolding receive_data
file_info opens m pipe =
    if not (has_zero m.filename)
    then fault
    else if opens (copied_file m.filename)
    then map_result (with_effects (create (copied_file m.filename) ∷ []))
        (receive_data (suc (length pipe)) m.size (pos 0) m pipe)
    else ok (record { effects = []; msg = m; pipe = pipe; returned = false })

abbrev pub returning : Message → Bytes → Result Received
returning m pipe = ok (record { effects = []; msg = m; pipe = pipe; returned = true })

-- One round of the loop of `child_func`. No output file is open at its head.
unfoldable pub child_round :
    (Bytes → Bool) → Message → Bytes → Option (Message × Bytes) → Result Received
unfolding file_info
child_round opens m pipe none = returning m pipe
child_round opens m pipe (some r) =
    if r.0.kind ==ℤ msg_file_info
    then file_info opens r.0 r.1
    else if r.0.kind ==ℤ msg_done
    then returning r.0 r.1
    else ok (record { effects = []; msg = r.0; pipe = r.1; returned = false })

-- What follows a round: nothing after a return.
unfoldable pub child_loop : ℕ → (Bytes → Bool) → Message → Bytes → Result (List Effect)
unfolding child_round read_msg
child_loop zero opens m pipe = stuck
child_loop (suc fuel) opens m pipe = elim (child_round opens m pipe (read_msg m pipe)) [
  | ok r ↦ elim r.returned [
    | true ↦ ok r.effects
    | false ↦ map_result (λ es. r.effects ++ es) (child_loop fuel opens r.msg r.pipe)
  ]
  | exited ↦ exited
  | fault ↦ fault
  | stuck ↦ stuck
]

-- The message by which the child says that it is ready; `junk` is what the name held before.
abbrev pub ready : Bytes → Message
ready junk = record { kind = msg_ready; size = pos 0; filename = junk }

-- `opens` tells which files the child can create.
unfoldable pub child_func : (Bytes → Bool) → Bytes → Bytes → Result (List Effect)
unfolding child_loop
child_func opens junk pipe = child_loop (suc (length pipe)) opens (ready junk) pipe
