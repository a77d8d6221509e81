-- ===== src/Copier/Whole.antt =====
-- main of 01/main.c, from its arguments to the copies.
use eltex_modul.Common.{
  ◌+◌, ◌<◌, ◌≡◌, refl, ap, ◌∙◌, true, false, Option, none, some, List, [], ◌∷◌, ◌++◌, ltb, length,
  arith,
}
use eltex_modul.Common.Handles.{AllClosed}
use eltex_modul.Common.Names.{has_name, without-both, has_name-other}
use eltex_modul.Common.Text.{Bytes, utf8}
use eltex_modul.Copier.{Message, ok, Effect, max_filename, child_func, encode, ready, read_msg}
use eltex_modul.Copier.Parent.{parent_func, after_ready, send_files}
use eltex_modul.Copier.Info.{File, AllCopyable, names}
use eltex_modul.Copier.Copy.{made as made_files, copy, copies_of}
use eltex_modul.Copier.Ends.{
  same, second_name-differs, second_name-differs_back, child_after-AllClosed,
  parent_after-AllClosed,
}
use eltex_modul.Copier.Start.{
  Opt, named, parse_options, Answers, second_name, made, make_pipes, meet, both_open, is_named,
  child_before, parent_before, child_after, parent_after, unlink_pipes, after_parent, finished, Run,
  Folder, interferes, processes, main,
}

-- The options and the arguments for the files, with or without a named pipe.
abbrev pub options_for : Option Bytes → List Opt
options_for none = []
options_for (some name) = named name ∷ []

abbrev pub argv_for : Option Bytes → List File → List Bytes
argv_for none fs = names fs
argv_for (some name) fs = utf8 "-p" ∷ name ∷ names fs

-- A kernel that gives what is asked for, with neither name of a named pipe taken.
abbrev pub CanRun : Answers → List Bytes → Option Bytes → Type 0
CanRun a fifos none = (a.pipes ≡ true) × (a.forks ≡ true)
CanRun a fifos (some name) =
    (length name < 255)
    × (a.forks ≡ true)
    × (has_name (λ f. f) name fifos ≡ false)
    × (has_name (λ f. f) (second_name name) fifos ≡ false)
    × (a.makes name ≡ true)
    × (a.makes (second_name name) ≡ true)

abbrev pub with_pipes : Option Bytes → List Bytes → List Bytes
with_pipes none fifos = fifos
with_pipes (some name) fifos = second_name name ∷ name ∷ fifos

options-parsed :
    (a : Answers) (fifos : List Bytes) (name : Option Bytes)
    → CanRun a fifos name
    → parse_options none (options_for name) ≡ name
unfolding parse_options
options-parsed a fifos none h = refl
options-parsed a fifos (some name) h =
    let t : ltb (length name) max_filename ≡ true = ground (arith, h.0) in rw t refl

pipes-made :
    (a : Answers) (fifos : List Bytes) (name : Option Bytes)
    → CanRun a fifos name
    → make_pipes a fifos name ≡ made (with_pipes name fifos)
unfolding make_pipes
pipes-made a fifos none h = rw h.0 refl
pipes-made a fifos (some name) (short, forks, no_one, no_two, one, two) =
    let fits : ltb (length name + 1) 256 ≡ true = ground (arith, short) in
    let other =
      has_name-other (λ (f : Bytes). f) name (second_name name) fifos (second_name-differs name)
        (second_name-differs_back name) no_one no_two in
    rw (fits, no_one, one, other, two) refl

pipes-unlinked :
    (a : Answers) (fifos : List Bytes) (name : Option Bytes)
    → CanRun a fifos name
    → unlink_pipes name (with_pipes name fifos) ≡ fifos
unfolding unlink_pipes
pipes-unlinked a fifos none h = refl
pipes-unlinked a fifos (some name) (short, forks, no_one, no_two, one, two) =
    without-both (λ (f : Bytes). f) name (second_name name) fifos (second_name-differs name)
      (second_name-differs_back name) no_one no_two

forks-true :
    (a : Answers) (fifos : List Bytes) (name : Option Bytes) → CanRun a fifos name → a.forks ≡ true
forks-true a fifos none h = h.1
forks-true a fifos (some name) h = h.1

both_open-true : (name : Option Bytes) → both_open name ≡ true
unfolding meet
both_open-true none = refl
both_open-true (some name) = refl

skips :
    (open_file : Bytes → Option Bytes) (name : Bytes) (fs : List File)
    (r : Option (Message × Bytes))
    → after_ready open_file (utf8 "-p" ∷ name ∷ names fs) r ≡ after_ready open_file (names fs) r
unfolding send_files
skips open_file name fs none = refl
skips open_file name fs (some r) = refl

-- The parent passes over -p and the name behind it.
parent-skips :
    (open_file : Bytes → Option Bytes) (m : Message) (answer : Bytes) (name : Option Bytes)
    (fs : List File)
    → parent_func open_file m answer (argv_for name fs) ≡ parent_func open_file m answer (names fs)
unfolding parent_func
parent-skips open_file m answer none fs = refl
parent-skips open_file m answer (some name) fs = skips open_file name fs (read_msg m answer)

main-processes :
    (a : Answers) (folder : Folder) (m : Message) (junk : Bytes) (fifos : List Bytes)
    (name : Option Bytes) (f : File) (fs : List File)
    → let args = argv_for name (f ∷ fs) in
      let parsed = parse_options none (options_for name) in
      main a folder m junk fifos (options_for name) args
      ≡ processes a folder m junk parsed args (make_pipes a fifos parsed)
unfolding main
main-processes a folder m junk fifos none f fs = refl
main-processes a folder m junk fifos (some name) f fs = refl

processes-run :
    (a : Answers) (folder : Folder) (m : Message) (junk : Bytes) (fifos : List Bytes)
    (name : Option Bytes) (args : List Bytes)
    → a.forks ≡ true
    → interferes folder.same_file args args ≡ false
    → processes a folder m junk name args (made fifos)
      ≡ after_parent folder.opens junk name fifos
          (parent_func folder.open_file m (encode (ready junk)) args)
unfolding processes
processes-run a folder m junk fifos name args forks apart =
    rw (forks, apart, both_open-true name) refl

main-run :
    (a : Answers) (folder : Folder) (m : Message) (junk : Bytes) (fifos : List Bytes)
    (name : Option Bytes) (f : File) (fs : List File) (sent : Bytes)
    → CanRun a fifos name
    → interferes folder.same_file (argv_for name (f ∷ fs)) (argv_for name (f ∷ fs)) ≡ false
    → parent_func folder.open_file m (encode (ready junk)) (names (f ∷ fs)) ≡ ok sent
    → main a folder m junk fifos (options_for name) (argv_for name (f ∷ fs))
      ≡ after_parent folder.opens junk name (with_pipes name fifos) (ok sent)
main-run a folder m junk fifos name f fs sent h apart p =
    let args = argv_for name (f ∷ fs) in
    main-processes a folder m junk fifos name f fs
    ∙ ap (λ n. processes a folder m junk n args (make_pipes a fifos n))
        (options-parsed a fifos name h)
    ∙ ap (processes a folder m junk name args) (pipes-made a fifos name h)
    ∙ processes-run a folder m junk (with_pipes name fifos) name args (forks-true a fifos name h)
        apart
    ∙ ap (after_parent folder.opens junk name (with_pipes name fifos))
        (parent-skips folder.open_file m (encode (ready junk)) name (f ∷ fs) ∙ p)

-- With files that can be copied, with or without a named pipe whose name has at most 254 bytes and is not
-- taken, when no argument is a name of the copy of one, so that the child writes to none of the files that
-- the parent reads, and with a kernel that gives what is asked for: main comes to its end; the child has made just
-- the copies of the files, each with the bytes of its file, in order; each process has closed the ends
-- of the pipes that it held, each once; and the named pipes are gone.
pub main-copies :
    (a : Answers) (folder : Folder) (m : Message) (junk : Bytes) (fifos : List Bytes)
    (name : Option Bytes) (f : File) (fs : List File)
    → length junk ≡ max_filename
    → AllCopyable folder.open_file folder.opens (f ∷ fs)
    → CanRun a fifos name
    → interferes folder.same_file (argv_for name (f ∷ fs)) (argv_for name (f ∷ fs)) ≡ false
    → (r : Run) × (es : List Effect) × (main a folder m junk fifos
          (options_for name)
          (argv_for name (f ∷ fs))
        ≡ finished r)
      × (r.effects ≡ ok es)
      × (made_files es ≡ copies_of (f ∷ fs))
      × AllClosed same r.child
      × AllClosed same r.parent
      × (r.fifos ≡ fifos)
unfolding after_parent
main-copies a folder m junk fifos name f fs size c h apart =
    let (sent, es, p, q, files) = copy folder.open_file folder.opens m junk (f ∷ fs) size c in
    (
      record {
        fifos = unlink_pipes name (with_pipes name fifos);
        parent = parent_before (is_named name) ++ parent_after;
        child = child_before (is_named name) ++ child_after;
        effects = child_func folder.opens junk sent;
      },
      es,
      main-run a folder m junk fifos name f fs sent h apart p,
      q,
      files,
      child_after-AllClosed (is_named name),
      parent_after-AllClosed (is_named name),
      pipes-unlinked a fifos name h,
    )
