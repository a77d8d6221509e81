-- ===== src/Copier/Info.antt =====
-- The files that 01/main.c copies, and the message that announces one.
use eltex_modul.Common.{
  ℕ, suc, ◌+◌, ◌%◌, ◌^◌, ◌≤◌, ◌<◌, ◌≡◌, refl, ap, ◌∙◌, Bool, true, false, Option, some, List, [],
  ◌∷◌, ◌++◌, arith, length, drop, length-append, length-drop,
}
use eltex_modul.Common.Int.{of_u32, pos}
use eltex_modul.Common.Text.{Bytes, utf8, c_str, snprintf, AllOf, not_zero, take_all}
use eltex_modul.Copier.{
  Message, ok, Effect, create, Received, encode, read_msg, receive_data, has_zero, copied_file,
  file_info, child_round, child_loop, max_filename, with_effects, map_result,
}
use eltex_modul.Copier.Parent.{pieces, data_msg, send_pieces, put_name, info_msg, is_option}
use eltex_modul.Copier.Layout.{IsMessage}
use eltex_modul.Copier.Pieces.{AllPieces, writes}

-- A file: its name and its bytes.
abbrev pub File : Type 0
File = Bytes × Bytes

-- The name of the copy.
abbrev pub copy_name : Bytes → Bytes
copy_name name = name ++ utf8 ".copy"

-- A file that can be copied: it is there, its name is a C string of at most 255 bytes and no option,
-- its size fits an int, and the child can create the copy.
pub record Copyable (open_file : Bytes → Option Bytes) (opens : Bytes → Bool) (f : File)
    : Type 0 where
  pub there : open_file f.0 ≡ some f.1
  pub string : AllOf not_zero f.0
  pub short : length f.0 < max_filename
  pub plain : is_option f.0 ≡ false
  pub fits : length f.1 < 2 ^ 31
  pub creatable : opens (copy_name f.0) ≡ true

abbrev pub AllCopyable : (Bytes → Option Bytes) → (Bytes → Bool) → List File → Type 0
AllCopyable open_file opens [] = Unit {0}
AllCopyable open_file opens (f ∷ fs) = Copyable open_file opens f × AllCopyable open_file opens fs

abbrev pub names : List File → List Bytes
names [] = []
names (f ∷ fs) = f.0 ∷ names fs

-- What the child does for the files.
abbrev pub copies : List File → List Effect
copies [] = []
copies (f ∷ fs) = (create (copy_name f.0) ∷ writes (pieces (length f.1) f.1)) ++ copies fs

pub has_zero-put_name : (name old : Bytes) → has_zero (put_name name old) ≡ true
has_zero-put_name name old = has_zero-append name (drop (suc (length name)) old)
  where
    has_zero-append : (s t : Bytes) → has_zero (s ++ 0 ∷ t) ≡ true
    has_zero-append [] t = refl
    has_zero-append (b ∷ s) t = ground (arith, has_zero-append s t)

c_str-put_name : (name tail : Bytes) → AllOf not_zero name → c_str (name ++ 0 ∷ tail) ≡ name
unfolding c_str
c_str-put_name [] tail h = refl
c_str-put_name (b ∷ name) tail h = ground (arith, c_str-put_name name tail h.1)

pub copied_file-name :
    (name old : Bytes)
    → AllOf not_zero name
    → length name < max_filename
    → copied_file (put_name name old) ≡ copy_name name
copied_file-name name old h short =
    ap (λ s. snprintf (max_filename + 10) (s ++ utf8 ".copy"))
      (c_str-put_name name (drop (suc (length name)) old) h)
    ∙ take_all 265 (copy_name name) (omega (arith, length-append name (utf8 ".copy")))

pub info_msg-IsMessage :
    (m : Message) (name : Bytes) (size : ℕ)
    → IsMessage m
    → length name < max_filename
    → IsMessage (info_msg m name size)
info_msg-IsMessage m name size h short = record {
  kind = omega arith;
  size = ground arith;
  filename = omega (
    arith,
    h.filename,
    length-append name (0 ∷ drop (suc (length name)) m.filename),
    length-drop (suc (length name)) m.filename,
  );
}

pub size_fits : (n : ℕ) → n < 2 ^ 31 → of_u32 (n % 2 ^ 32) ≡ pos n
size_fits n h = ground arith

pub length-send_pieces :
    (m : Message) (ps : List Bytes) → AllPieces ps → length ps ≤ length (send_pieces m ps)
unfolding send_pieces
length-send_pieces m [] h = omega arith
length-send_pieces m (p ∷ ps) h =
    let d = data_msg m p in
    omega (
      arith,
      h.0,
      length-append (encode d) (p ++ send_pieces d ps),
      length-append p (send_pieces d ps),
      length-send_pieces d ps h.2,
    )

pub file_info-ok :
    (opens : Bytes → Bool) (info : Message) (name : Bytes) (pipe : Bytes) (r : Received)
    → has_zero info.filename ≡ true
    → copied_file info.filename ≡ name
    → opens name ≡ true
    → receive_data (suc (length pipe)) info.size (pos 0) info pipe ≡ ok r
    → file_info opens info pipe ≡ ok (with_effects (create name ∷ []) r)
unfolding file_info
file_info-ok opens info name pipe r z n o e = rw (z, n) (rw o (rw e refl))

pub child_loop-goes_on :
    (fuel : ℕ) (opens : Bytes → Bool) (old : Message) (pipe : Bytes) (r : Received)
    (got : Message × Bytes)
    → read_msg old pipe ≡ some got
    → child_round opens old pipe (some got) ≡ ok r
    → r.returned ≡ false
    → child_loop (suc fuel) opens old pipe
      ≡ map_result (λ es. r.effects ++ es) (child_loop fuel opens r.msg r.pipe)
unfolding child_loop
child_loop-goes_on fuel opens old pipe r got e f g = rw (e, child_loop) (rw f (rw g refl))

pub length-encode-pos : (m : Message) → 0 < length (encode m)
unfolding encode
length-encode-pos m = omega arith
