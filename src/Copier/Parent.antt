-- ===== src/Copier/Parent.antt =====
-- The parent of 01/main.c.
use eltex_modul.Common.{
  ℕ, zero, suc, ◌%◌, ◌^◌, Bool, true, false, Option, none, some, List, [], ◌∷◌, ◌++◌, if◌then◌else◌,
  ltb, ◌==◌, length, take, drop,
}
use eltex_modul.Common.Int.{of_u32, pos, ◌==ℤ◌}
use eltex_modul.Common.Text.{Bytes}
use eltex_modul.Copier.{
  Message, Result, ok, exited, fault, encode, map_result, read_msg, max_filename, buffer_length,
  msg_ready, msg_file_info, msg_data, msg_done,
}

-- The pieces that `read` gives of an open file; `length bytes` rounds of fuel are enough.
unfoldable pub pieces : ℕ → Bytes → List Bytes
pieces zero bytes = []
pieces (suc fuel) [] = []
pieces (suc fuel) (b ∷ bs) =
    let more = pieces fuel (drop buffer_length (b ∷ bs)) in take buffer_length (b ∷ bs) ∷ more

abbrev pub data_msg : Message → Bytes → Message
data_msg m piece = record m { kind = msg_data; size = pos (length piece) }

-- The message after the pieces have been sent.
abbrev pub after_pieces : Message → List Bytes → Message
after_pieces m [] = m
after_pieces m (p ∷ ps) = after_pieces (data_msg m p) ps

-- What is written for the pieces.
unfoldable pub send_pieces : Message → List Bytes → Bytes
send_pieces m [] = []
send_pieces m (p ∷ ps) = encode (data_msg m p) ++ (p ++ send_pieces (data_msg m p) ps)

-- `strcpy` into the name.
abbrev pub put_name : Bytes → Bytes → Bytes
put_name name old = name ++ 0 ∷ drop (suc (length name)) old

abbrev pub info_msg : Message → Bytes → ℕ → Message
info_msg m name size = record m {
  filename = put_name name m.filename;
  kind = msg_file_info;
  size = of_u32 (size % 2 ^ 32);
}

abbrev pub done_msg : Message → Message
done_msg m = record m { kind = msg_done; size = pos 0 }

abbrev pub has_p : Bytes → Bool
has_p [] = false
has_p (b ∷ bs) = if b == 112 then true else has_p bs

-- '-' is 45, 'p' is 112.
abbrev pub is_option : Bytes → Bool
is_option [] = false
is_option (b ∷ bs) = if b == 45 then has_p (b ∷ bs) else false

-- What the parent finds at an argument: the option -p, no file, or a file.
pub data Argument : Type 0 where
  option : Argument
  missing : Argument
  found : Bytes → Argument

abbrev pub opened : Option Bytes → Argument
opened none = missing
opened (some bytes) = found bytes

abbrev pub argument : (Bytes → Option Bytes) → Bytes → Argument
argument open_file arg = if is_option arg then option else opened (open_file arg)

abbrev pub file_bytes : Message → List Bytes → Bytes
file_bytes m ps = encode m ++ send_pieces m ps

-- The loop over the arguments and the last message; `skip` says that the next one is the name of -p.
unfoldable pub send_files : (Bytes → Option Bytes) → Bool → Message → List Bytes → Result Bytes
unfolding pieces send_pieces encode
send_files open_file skip m [] = ok (encode (done_msg m))
send_files open_file true m (arg ∷ args) = send_files open_file false m args
send_files open_file false m (arg ∷ args) = elim (argument open_file arg) [
  | option ↦ send_files open_file true m args
  | missing ↦ send_files open_file false m args
  | found bytes ↦
      let info = info_msg m arg (length bytes) in
      let ps = pieces (length bytes) bytes in
      let rest = send_files open_file false (after_pieces info ps) args in
      if ltb (length arg) max_filename
      then map_result (λ r. file_bytes info ps ++ r) rest
      else fault
]

abbrev pub checked : Message → Result Bytes → Result Bytes
checked m r = if m.kind ==ℤ msg_ready then r else exited

abbrev pub after_ready :
    (Bytes → Option Bytes) → List Bytes → Option (Message × Bytes) → Result Bytes
after_ready open_file args none = exited
after_ready open_file args (some r) = checked r.0 (send_files open_file false r.0 args)

-- What the parent writes: `answer` is what it reads from the child, `args` are argv[1] and so on.
unfoldable pub parent_func : (Bytes → Option Bytes) → Message → Bytes → List Bytes → Result Bytes
unfolding read_msg send_files
parent_func open_file m answer args = after_ready open_file args (read_msg m answer)
