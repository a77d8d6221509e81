-- ===== src/Copier/Start.antt =====
-- main of 01/main.c: the options, the pipes, and the two processes over them.
--
-- What getopt gives is an argument, beside argv as it leaves it. `fifos` are the files that mkfifo has made,
-- with what else has a name that it is asked for. Opening a pipe that is there never fails, and for a named
-- one it waits for the other process: a process is at its open calls until both have made the same one.
use eltex_modul.Common.{
  ◌+◌, Bool, true, false, not, ◌&&◌, ◌||◌, Option, none, some, List, [], ◌∷◌, ◌++◌, if◌then◌else◌,
  ltb, length,
}
use eltex_modul.Common.Handles.{Event, opened, closed}
use eltex_modul.Common.Names.{has_name, without}
use eltex_modul.Common.Text.{Bytes, utf8}
use eltex_modul.Copier.{
  Message, Result, ok, exited, fault, stuck, Effect, max_filename, encode, ready, child_func,
}
use eltex_modul.Copier.Parent.{parent_func}

-- -p with its argument, or another letter.
pub data Opt : Type 0 where
  named : Bytes → Opt
  unknown : Opt

-- The loop over the options: the name of the pipe, if is_named_pipe is set.
unfoldable pub parse_options : Option Bytes → List Opt → Option Bytes
parse_options name [] = name
parse_options name (named arg ∷ more) =
    parse_options (if ltb (length arg) max_filename then some arg else name) more
parse_options name (unknown ∷ more) = parse_options name more

-- The pipe from the parent to the child is pipefd or pipe_name, the one back pipefd2 or pipe_name2.
pub data Pipe : Type 0 where
  to_child : Pipe
  to_parent : Pipe

pub data End : Type 0 where
  reads : Pipe → End
  writes : Pipe → End

-- What the kernel answers: whether a named pipe can be made, apart from one of that name being there, and
-- whether pipe and fork work.
pub record Answers : Type 0 where
  pub makes : Bytes → Bool
  pub pipes : Bool
  pub forks : Bool

abbrev pub second_name : Bytes → Bytes
second_name pipe_name = pipe_name ++ utf8 "2"

-- exit, with the named pipes that are left; strcat past the end of pipe_name2; or two pipes.
pub data Made : Type 0 where
  failed : List Bytes → Made
  overrun : Made
  made : List Bytes → Made

abbrev pub can_make : Answers → List Bytes → Bytes → Bool
can_make a fifos name = not (has_name (λ f. f) name fifos) && a.makes name

unfoldable pub make_pipes : Answers → List Bytes → Option Bytes → Made
unfolding has_name
make_pipes a fifos none = if a.pipes then made fifos else failed fifos
make_pipes a fifos (some name) =
    if not (ltb (length name + 1) 256)
    then overrun
    else if not (can_make a fifos name)
    then failed fifos
    else if not (can_make a (name ∷ fifos) (second_name name))
    then failed (name ∷ fifos)
    else made (second_name name ∷ name ∷ fifos)

-- The ends that fork gives to both.
abbrev pub inherited : List (Event End)
inherited =
    opened (reads to_child)
    ∷ opened (writes to_child)
    ∷ opened (reads to_parent)
    ∷ opened (writes to_parent)
    ∷ []

abbrev pub child_opens : List (Event End)
child_opens = opened (reads to_child) ∷ opened (writes to_parent) ∷ []

abbrev pub parent_opens : List (Event End)
parent_opens = opened (writes to_child) ∷ opened (reads to_parent) ∷ []

-- Before child_func and parent_func.
unfoldable pub child_before : Bool → List (Event End)
child_before true = child_opens
child_before false = inherited ++ closed (writes to_child) ∷ closed (reads to_parent) ∷ []

unfoldable pub parent_before : Bool → List (Event End)
parent_before true = parent_opens
parent_before false = inherited ++ closed (reads to_child) ∷ closed (writes to_parent) ∷ []

-- Behind them.
unfoldable pub child_after : List (Event End)
child_after = closed (reads to_child) ∷ closed (writes to_parent) ∷ []

unfoldable pub parent_after : List (Event End)
parent_after = closed (writes to_child) ∷ closed (reads to_parent) ∷ []

-- Two processes at their open calls for named pipes: the calls that are left.
abbrev pub is_pair : Event End → Event End → Bool
is_pair (opened (reads to_child)) (opened (writes to_child)) = true
is_pair (opened (writes to_parent)) (opened (reads to_parent)) = true
is_pair e f = false

unfoldable pub meet : List (Event End) → List (Event End) → List (Event End) × List (Event End)
meet [] fs = ([], fs)
meet (e ∷ es) [] = (e ∷ es, [])
meet (e ∷ es) (f ∷ fs) = let rest = meet es fs in if is_pair e f then rest else (e ∷ es, f ∷ fs)

pub record Run : Type 0 where
  pub fifos : List Bytes
  pub parent : List (Event End)
  pub child : List (Event End)
  pub effects : Result (List Effect)

-- No file given, or an error; a write past an array; the processes wait for one another; the parent reads
-- a file that the child writes, so that what it reads hangs on how far each of them is; or the end of main.
pub data Outcome : Type 0 where
  quit : List Bytes → Outcome
  broken : Outcome
  hung : Outcome
  entangled : Outcome
  finished : Run → Outcome

abbrev pub is_named : Option Bytes → Bool
is_named none = false
is_named (some name) = true

abbrev pub is_empty {ℓ} : {A : Type ℓ} → List A → Bool
is_empty [] = true
is_empty (x ∷ xs) = false

abbrev pub both_open : Option Bytes → Bool
both_open none = true
both_open (some name) =
    let left = meet child_opens parent_opens in is_empty left.0 && is_empty left.1

unfoldable pub unlink_pipes : Option Bytes → List Bytes → List Bytes
unfolding without
unlink_pipes none fifos = fifos
unlink_pipes (some name) fifos = without (λ f. f) (second_name name) (without (λ f. f) name fifos)

-- What the parent has written is what the child reads. When the parent exits, the pipes stay.
unfoldable pub after_parent :
    (Bytes → Bool) → Bytes → Option Bytes → List Bytes → Result Bytes → Outcome
unfolding child_before child_after parent_before parent_after unlink_pipes child_func
after_parent opens junk name fifos (ok sent) = finished (record {
  fifos = unlink_pipes name fifos;
  parent = parent_before (is_named name) ++ parent_after;
  child = child_before (is_named name) ++ child_after;
  effects = child_func opens junk sent;
})
after_parent opens junk name fifos exited = quit fifos
after_parent opens junk name fifos fault = broken
after_parent opens junk name fifos stuck = hung

-- The files and their names: what the parent can open before the child writes, what the child can create,
-- and whether two names are names of one file.
pub record Folder : Type 0 where
  pub open_file : Bytes → Option Bytes
  pub opens : Bytes → Bool
  pub same_file : Bytes → Bytes → Bool

-- Whether `arg` names the copy of one of the arguments.
unfoldable pub is_copy_of : (Bytes → Bytes → Bool) → Bytes → List Bytes → Bool
is_copy_of same_file arg [] = false
is_copy_of same_file arg (other ∷ others) =
    same_file arg (other ++ utf8 ".copy") || is_copy_of same_file arg others

-- Whether one of `args` names the copy of one of `all`: the child truncates it and writes to it while the
-- parent has still to open it, or reads it.
unfoldable pub interferes : (Bytes → Bytes → Bool) → List Bytes → List Bytes → Bool
unfolding is_copy_of
interferes same_file all [] = false
interferes same_file all (arg ∷ args) =
    is_copy_of same_file arg all || interferes same_file all args

-- `m` and `junk` are what the messages of the parent and the child hold at first.
unfoldable pub processes :
    Answers → Folder → Message → Bytes → Option Bytes → List Bytes → Made → Outcome
unfolding after_parent parent_func meet interferes
processes a folder m junk name args (failed fifos) = quit fifos
processes a folder m junk name args overrun = broken
processes a folder m junk name args (made fifos) =
    if not a.forks
    then quit fifos
    else if interferes folder.same_file args args
    then entangled
    else if both_open name
    then after_parent folder.opens junk name fifos
        (parent_func folder.open_file m (encode (ready junk)) args)
    else hung

unfoldable pub main :
    Answers → Folder → Message → Bytes → List Bytes → List Opt → List Bytes → Outcome
unfolding parse_options make_pipes processes
main a folder m junk fifos opts [] = quit fifos
main a folder m junk fifos opts (arg ∷ args) =
    let name = parse_options none opts in
    processes a folder m junk name (arg ∷ args) (make_pipes a fifos name)
