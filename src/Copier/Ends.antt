-- ===== src/Copier/Ends.antt =====
-- The pipes of 01/main.c: which ends the processes hold, and which names of pipes are left or do not fit.
use eltex_modul.Common.{
  ℕ, ◌+◌, ◌<◌, ◌≡◌, refl, inl, inr, Bool, true, false, none, some, List, [], ◌∷◌, ◌++◌,
  if◌then◌else◌, ltb, ◌==◌, length, arith, Bool-cases,
}
use eltex_modul.Common.Handles.{Event, opens_of, closes_of, AllClosed}
use eltex_modul.Common.Names.{has_name, str_eq_self}
use eltex_modul.Common.Text.{Bytes, str_eq}
use eltex_modul.Copier.{max_filename}
use eltex_modul.Copier.Start.{
  named, parse_options, Pipe, to_child, to_parent, End, reads, writes, Answers, second_name, Made,
  failed, overrun, made, can_make, make_pipes, child_before, parent_before, child_after,
  parent_after,
}

abbrev pub same_pipe : Pipe → Pipe → Bool
same_pipe to_child to_child = true
same_pipe to_child to_parent = false
same_pipe to_parent to_child = false
same_pipe to_parent to_parent = true

abbrev pub same : End → End → Bool
same (reads p) (reads q) = same_pipe p q
same (reads p) (writes q) = false
same (writes p) (reads q) = false
same (writes p) (writes q) = same_pipe p q

abbrev pub one_if : Bool → ℕ
one_if true = 1
one_if false = 0

-- The ends that a process uses.
abbrev pub of_child : End → Bool
of_child (reads to_child) = true
of_child (reads to_parent) = false
of_child (writes to_child) = false
of_child (writes to_parent) = true

abbrev pub of_parent : End → Bool
of_parent (reads to_child) = false
of_parent (reads to_parent) = true
of_parent (writes to_child) = true
of_parent (writes to_parent) = false

-- A process that holds just the ends of `used`, each once.
abbrev pub HoldsJust : (End → Bool) → List (Event End) → Type 0
HoldsJust used events =
    (e : End) → opens_of same e events ≡ closes_of same e events + one_if (used e)

child_before-HoldsJust : (is_named : Bool) → HoldsJust of_child (child_before is_named)
unfolding child_before opens_of closes_of
child_before-HoldsJust true (reads to_child) = refl
child_before-HoldsJust true (reads to_parent) = refl
child_before-HoldsJust true (writes to_child) = refl
child_before-HoldsJust true (writes to_parent) = refl
child_before-HoldsJust false (reads to_child) = refl
child_before-HoldsJust false (reads to_parent) = refl
child_before-HoldsJust false (writes to_child) = refl
child_before-HoldsJust false (writes to_parent) = refl

parent_before-HoldsJust : (is_named : Bool) → HoldsJust of_parent (parent_before is_named)
unfolding parent_before opens_of closes_of
parent_before-HoldsJust true (reads to_child) = refl
parent_before-HoldsJust true (reads to_parent) = refl
parent_before-HoldsJust true (writes to_child) = refl
parent_before-HoldsJust true (writes to_parent) = refl
parent_before-HoldsJust false (reads to_child) = refl
parent_before-HoldsJust false (reads to_parent) = refl
parent_before-HoldsJust false (writes to_child) = refl
parent_before-HoldsJust false (writes to_parent) = refl

pub child_after-AllClosed :
    (is_named : Bool) → AllClosed same (child_before is_named ++ child_after)
unfolding child_before child_after opens_of closes_of
child_after-AllClosed true (reads to_child) = (refl, omega arith)
child_after-AllClosed true (reads to_parent) = (refl, omega arith)
child_after-AllClosed true (writes to_child) = (refl, omega arith)
child_after-AllClosed true (writes to_parent) = (refl, omega arith)
child_after-AllClosed false (reads to_child) = (refl, omega arith)
child_after-AllClosed false (reads to_parent) = (refl, omega arith)
child_after-AllClosed false (writes to_child) = (refl, omega arith)
child_after-AllClosed false (writes to_parent) = (refl, omega arith)

pub parent_after-AllClosed :
    (is_named : Bool) → AllClosed same (parent_before is_named ++ parent_after)
unfolding parent_before parent_after opens_of closes_of
parent_after-AllClosed true (reads to_child) = (refl, omega arith)
parent_after-AllClosed true (reads to_parent) = (refl, omega arith)
parent_after-AllClosed true (writes to_child) = (refl, omega arith)
parent_after-AllClosed true (writes to_parent) = (refl, omega arith)
parent_after-AllClosed false (reads to_child) = (refl, omega arith)
parent_after-AllClosed false (reads to_parent) = (refl, omega arith)
parent_after-AllClosed false (writes to_child) = (refl, omega arith)
parent_after-AllClosed false (writes to_parent) = (refl, omega arith)

-- With named pipes and without: when child_func and parent_func start, the child holds just the reading
-- end of the pipe to the child and the writing end of the pipe to the parent, and the parent just
-- the other two, so that the child's pipe ends when the parent closes its end; and what each closes
-- behind that is what it holds.
pub before-HoldsJust :
    (is_named : Bool)
    → HoldsJust of_child (child_before is_named)
      × HoldsJust of_parent (parent_before is_named)
      × AllClosed same (child_before is_named ++ child_after)
      × AllClosed same (parent_before is_named ++ parent_after)
before-HoldsJust is_named = (
  child_before-HoldsJust is_named,
  parent_before-HoldsJust is_named,
  child_after-AllClosed is_named,
  parent_after-AllClosed is_named,
)

-- The names of the two pipes.
pub second_name-differs : (name : Bytes) → str_eq name (second_name name) ≡ false
second_name-differs [] = refl
second_name-differs (c ∷ cs) = ground (arith, second_name-differs cs)

pub second_name-differs_back : (name : Bytes) → str_eq (second_name name) name ≡ false
second_name-differs_back [] = refl
second_name-differs_back (c ∷ cs) = ground (arith, second_name-differs_back cs)

abbrev pub is_overrun : Made → Bool
is_overrun (failed fifos) = false
is_overrun overrun = true
is_overrun (made fifos) = false

make_pipes-short :
    (a : Answers) (fifos : List Bytes) (name : Bytes)
    → ltb (length name + 1) 256 ≡ true
    → is_overrun (make_pipes a fifos (some name)) ≡ false
unfolding make_pipes
make_pipes-short a fifos name fits = rw fits (elim (Bool-cases (can_make a fifos name)) [
  | inr e ↦ rw e refl
  | inl e ↦ elim (Bool-cases (can_make a (name ∷ fifos) (second_name name))) [
    | inr f ↦ rw (e, f) refl
    | inl f ↦ rw (e, f) refl
  ]
])

-- The name that -p gives is copied with a "2" behind it into an array of 256 bytes: that writes past its
-- end exactly when the name has 255 bytes, as a longer one is not taken.
pub make_pipes-overrun :
    (a : Answers) (fifos : List Bytes) (arg : Bytes)
    → is_overrun (make_pipes a fifos (parse_options none (named arg ∷ []))) ≡ (length arg == 255)
unfolding parse_options make_pipes
make_pipes-overrun a fifos arg = elim (Bool-cases (ltb (length arg) max_filename)) [
  | inr long ↦
      let e : (length arg == 255) ≡ false = ground (arith, long) in rw (long, e) (unnamed a.pipes)
  | inl taken ↦ elim (Bool-cases (ltb (length arg + 1) 256)) [
    | inl fits ↦
        let e : (length arg == 255) ≡ false = ground (arith, fits) in
        rw (taken, e) (make_pipes-short a fifos arg fits)
    | inr full ↦
        let e : (length arg == 255) ≡ true = ground (arith, taken, full) in rw (taken, full, e) refl
  ]
]
  where
    unnamed : (pipes : Bool) → is_overrun (if pipes then made fifos else failed fifos) ≡ false
    unnamed true = refl
    unnamed false = refl

-- When the first pipe can be made and the second cannot, because its name is there or for another reason:
-- the program exits and leaves the first behind; and from then on every start with this name exits, as
-- the first name is there, and leaves it there as well, whatever the kernel answers.
pub make_pipes-left_behind :
    (a later : Answers) (fifos : List Bytes) (name : Bytes)
    → length name + 1 < 256
    → can_make a fifos name ≡ true
    → can_make a (name ∷ fifos) (second_name name) ≡ false
    → (make_pipes a fifos (some name) ≡ failed (name ∷ fifos))
      × (make_pipes later (name ∷ fifos) (some name) ≡ failed (name ∷ fifos))
unfolding make_pipes has_name
make_pipes-left_behind a later fifos name short one no_two =
    let fits : ltb (length name + 1) 256 ≡ true = ground (arith, short) in
    (rw (fits, one, no_two) refl, rw (fits, str_eq_self name) refl)
