-- ===== src/Copier/Copy.antt =====
-- Files copied by 01/main.c: what the parent writes and what the child makes of it.
use eltex_modul.Common.{
  ℕ, zero, suc, ◌<◌, ◌≡◌, refl, sym, ap, ◌∙◌, Bool, true, false, Option, List, [], ◌∷◌, ◌++◌, ltb,
  arith, length, length-append, append_assoc, append-nil, joined, length-joined,
}
use eltex_modul.Common.Int.{pos}
use eltex_modul.Common.Text.{Bytes}
use eltex_modul.Copier.{
  Message, ok, Effect, create, write, close, encode, read_msg, receive_data, file_info, child_round,
  child_loop, child_func, max_filename, with_effects, map_result, ready,
}
use eltex_modul.Copier.Parent.{
  pieces, after_pieces, send_pieces, info_msg, done_msg, file_bytes, send_files, after_ready,
  parent_func,
}
use eltex_modul.Copier.Layout.{IsMessage, read_msg-encode}
use eltex_modul.Copier.Pieces.{
  writes, pieces-joined, pieces-AllPieces, after_pieces-IsMessage, received_file,
  receive_data-pieces,
}
use eltex_modul.Copier.Info.{
  File, copy_name, Copyable, AllCopyable, names, copies, has_zero-put_name, copied_file-name,
  info_msg-IsMessage, size_fits, length-send_pieces, file_info-ok, child_loop-goes_on,
  length-encode-pos,
}

module _ (open_file : Bytes → Option Bytes) (opens : Bytes → Bool) where
  -- The child makes a copy of one file and leaves what follows.
  file_info-copy :
      (m : Message) (f : File) (rest : Bytes)
      → IsMessage m
      → Copyable open_file opens f
      → let info = info_msg m f.0 (length f.1) in
        let ps = pieces (length f.1) f.1 in
        file_info opens info (send_pieces info ps ++ rest)
        ≡ ok (with_effects (create (copy_name f.0) ∷ []) (received_file info ps rest))
  file_info-copy m f rest h c =
      let info = info_msg m f.0 (length f.1) in
      let ps = pieces (length f.1) f.1 in
      let fit = pieces-AllPieces (length f.1) f.1 in
      let whole = pieces-joined (length f.1) f.1 (omega arith) in
      let enough =
        receive_data-pieces (suc (length (send_pieces info ps ++ rest))) (length f.1) 0 info ps rest
          (omega (arith, length-send_pieces info ps fit, length-append (send_pieces info ps) rest))
          (omega (arith, length-joined ps, ap length whole))
          (info_msg-IsMessage m f.0 (length f.1) h c.short) fit in
      file_info-ok opens info (copy_name f.0) (send_pieces info ps ++ rest)
        (received_file info ps rest) (has_zero-put_name f.0 m.filename)
        (copied_file-name f.0 m.filename c.string c.short) c.creatable
        (ap
            (λ n.
              receive_data (suc (length (send_pieces info ps ++ rest))) n (pos 0) info
                (send_pieces info ps ++ rest))
            (size_fits (length f.1) c.fits)
          ∙ enough)

  -- A round of the child for one file.
  child_loop-copy :
      (fuel : ℕ) (old m : Message) (f : File) (rest : Bytes)
      → IsMessage m
      → Copyable open_file opens f
      → let info = info_msg m f.0 (length f.1) in
        let ps = pieces (length f.1) f.1 in
        child_loop (suc fuel) opens old (file_bytes info ps ++ rest)
        ≡ map_result
            (λ es. (create (copy_name f.0) ∷ writes ps) ++ es)
            (child_loop fuel opens (after_pieces info ps) rest)
  unfolding child_loop child_round
  child_loop-copy fuel old m f rest h c =
      let info = info_msg m f.0 (length f.1) in
      let ps = pieces (length f.1) f.1 in
      let got =
        read_msg-encode old info (send_pieces info ps ++ rest)
          (info_msg-IsMessage m f.0 (length f.1) h c.short) in
      child_loop-goes_on fuel opens old (file_bytes info ps ++ rest)
        (with_effects (create (copy_name f.0) ∷ []) (received_file info ps rest))
        (info, send_pieces info ps ++ rest)
        (ap (read_msg old) (append_assoc (encode info) (send_pieces info ps) rest) ∙ got)
        (file_info-copy m f rest h c) refl

  child_loop-done :
      (fuel : ℕ) (old m : Message)
      → IsMessage m
      → child_loop (suc fuel) opens old (encode (done_msg m)) ≡ ok []
  unfolding child_loop child_round
  child_loop-done fuel old m h =
      let got =
        read_msg-encode old (done_msg m) []
          (record { kind = omega arith; size = omega arith; filename = h.filename }) in
      rw (ap (read_msg old) (sym (append-nil (encode (done_msg m)))) ∙ got, child_loop) refl

  send_files-found :
      (m : Message) (f : File) (args : List Bytes) (sent : Bytes)
      → Copyable open_file opens f
      → let info = info_msg m f.0 (length f.1) in
        let ps = pieces (length f.1) f.1 in
        send_files open_file false (after_pieces info ps) args ≡ ok sent
        → send_files open_file false m (f.0 ∷ args) ≡ ok (file_bytes info ps ++ sent)
  unfolding send_files
  send_files-found m f args sent c e =
      let t : ltb (length f.0) max_filename ≡ true = ground (arith, c.short) in
      rw (c.plain, c.there, send_files) (rw (t, e) refl)

  -- The parent's loop over the files and the child's loop over what it wrote.
  record Copied (old m : Message) (fs : List File) : Type 0 where
    sent : Bytes
    parent : send_files open_file false m (names fs) ≡ ok sent
    child : (fuel : ℕ) → length fs < fuel → child_loop fuel opens old sent ≡ ok (copies fs)
    enough : length fs < length sent

  child_done :
      (old m : Message)
      → IsMessage m
      → (fuel : ℕ) → 0 < fuel
      → child_loop fuel opens old (encode (done_msg m)) ≡ ok []
  child_done old m h zero more = absurd (omega arith)
  child_done old m h (suc fuel) more = child_loop-done fuel old m h

  child_next :
      (old m : Message) (f : File) (fs : List File) (rest : Bytes)
      → IsMessage m
      → Copyable open_file opens f
      → let info = info_msg m f.0 (length f.1) in
        let ps = pieces (length f.1) f.1 in
        ((fuel : ℕ)
          → length fs < fuel
          → child_loop fuel opens (after_pieces info ps) rest ≡ ok (copies fs))
        → (fuel : ℕ) → length (f ∷ fs) < fuel
        → child_loop fuel opens old (file_bytes info ps ++ rest) ≡ ok (copies (f ∷ fs))
  child_next old m f fs rest h c ih zero more = absurd (omega arith)
  child_next old m f fs rest h c ih (suc fuel) more =
      child_loop-copy fuel old m f rest h c
      ∙ ap (map_result (λ es. (create (copy_name f.0) ∷ writes (pieces (length f.1) f.1)) ++ es))
          (ih fuel (omega arith))

  copy_loop :
      (old m : Message) (fs : List File)
      → IsMessage m
      → AllCopyable open_file opens fs
      → Copied old m fs
  unfolding send_files
  copy_loop old m [] h c = record {
    sent = encode (done_msg m);
    parent = refl;
    child = child_done old m h;
    enough = omega (arith, length-encode-pos (done_msg m));
  }
  copy_loop old m (f ∷ fs) h c =
      let info = info_msg m f.0 (length f.1) in
      let ps = pieces (length f.1) f.1 in
      let info-IsMessage = info_msg-IsMessage m f.0 (length f.1) h c.0.short in
      let after =
        after_pieces-IsMessage info ps info-IsMessage (pieces-AllPieces (length f.1) f.1) in
      let r = copy_loop (after_pieces info ps) (after_pieces info ps) fs after c.1 in
      record {
        sent = file_bytes info ps ++ r.sent;
        parent = send_files-found m f (names fs) r.sent c.0 r.parent;
        child = child_next old m f fs r.sent h c.0 r.child;
        enough = omega (
          arith,
          r.enough,
          length-encode-pos info,
          length-append (file_bytes info ps) r.sent,
          length-append (encode info) (send_pieces info ps),
        );
      }

-- The bytes that are written until the file is closed.
abbrev pub until_close : List Effect → Bytes
until_close [] = []
until_close (create name ∷ es) = []
until_close (write bytes ∷ es) = bytes ++ until_close es
until_close (close ∷ es) = []

-- The files that the calls make: their names and what has been written into each.
abbrev pub made : List Effect → List File
made [] = []
made (create name ∷ es) = (name, until_close es) ∷ made es
made (write bytes ∷ es) = made es
made (close ∷ es) = made es

made-writes : (ps : List Bytes) (es : List Effect) → made (writes ps ++ es) ≡ made es
made-writes [] es = refl
made-writes (p ∷ ps) es = made-writes ps es

until_close-writes :
    (ps : List Bytes) (es : List Effect) → until_close (writes ps ++ es) ≡ joined ps
until_close-writes [] es = refl
until_close-writes (p ∷ ps) es = ap (λ r. p ++ r) (until_close-writes ps es)

abbrev pub copy_of : File → File
copy_of f = (copy_name f.0, f.1)

abbrev pub copies_of : List File → List File
copies_of [] = []
copies_of (f ∷ fs) = copy_of f ∷ copies_of fs

made-copies : (fs : List File) → made (copies fs) ≡ copies_of fs
made-copies [] = refl
made-copies (f ∷ fs) =
    let ps = pieces (length f.1) f.1 in
    let whole = pieces-joined (length f.1) f.1 (omega arith) in
    let content : until_close (writes ps ++ copies fs) ≡ f.1 =
      until_close-writes ps (copies fs) ∙ whole in
    let rest : made (writes ps ++ copies fs) ≡ copies_of fs =
      made-writes ps (copies fs) ∙ made-copies fs in
    λ i. (copy_name f.0, content i) ∷ rest i

-- The parent and the child of 01/main.c together, for any number of files that can be copied, given by
-- their names as the arguments: the parent, having read the child's message that it is ready, sends
-- some bytes; and the child, reading these, comes to its end and has made just the copies of
-- the files, each named after its file with ".copy" added and with the same bytes, in order. The
-- buffers of the two messages may hold anything before.
pub copy :
    (open_file : Bytes → Option Bytes) (opens : Bytes → Bool) (m : Message) (junk : Bytes)
    (fs : List File)
    → length junk ≡ max_filename
    → AllCopyable open_file opens fs
    → (sent : Bytes) × (es : List Effect) × (parent_func open_file m
          (encode (ready junk))
          (names fs)
        ≡ ok sent)
      × (child_func opens junk sent ≡ ok es)
      × (made es ≡ copies_of fs)
unfolding parent_func child_func
copy open_file opens m junk fs size c =
    let h : IsMessage (ready junk) = record {
      kind = omega arith;
      size = omega arith;
      filename = size;
    } in
    let r = copy_loop open_file opens (ready junk) (ready junk) fs h c in
    let got =
      ap (read_msg m) (sym (append-nil (encode (ready junk))))
      ∙ read_msg-encode m (ready junk) [] h in
    (
      r.sent,
      copies fs,
      ap (after_ready open_file (names fs)) got ∙ r.parent,
      r.child (suc (length r.sent)) (omega (arith, r.enough)),
      made-copies fs,
    )
