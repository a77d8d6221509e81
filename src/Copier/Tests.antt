-- ===== src/Copier/Tests.antt =====
-- The copier at two small files.
use eltex_modul.Common.{
  ℕ, none, ◌≡◌, ◌≢◌, refl, Bool, true, Option, some, List, [], ◌∷◌, if◌then◌else◌, arith, replicate,
}
use eltex_modul.Common.Int.{pos}
use eltex_modul.Common.Text.{Bytes, utf8, str_eq}
use eltex_modul.Copier.{Message, Effect, ok, stuck, child_func}
use eltex_modul.Copier.Info.{File, Copyable}
use eltex_modul.Copier.Copy.{made}
use eltex_modul.Copier.Fuel.{child_func-ends}
use eltex_modul.Common.{Bool, true, ◌==◌, length}
use eltex_modul.Common.Handles.{AllClosed}
use eltex_modul.Common.Names.{has_name}
use eltex_modul.Copier.Start.{
  Answers, Folder, Run, finished, named, parse_options, make_pipes, interferes, main,
}
use eltex_modul.Copier.Ends.{same, is_overrun, make_pipes-overrun}
use eltex_modul.Copier.Whole.{main-copies}

abbrev greeting : File
greeting = (utf8 "a.txt", utf8 "hello")

-- An empty file.
abbrev nothing : File
nothing = (utf8 "b", [])

abbrev folder : Bytes → Option Bytes
folder name = if str_eq name (utf8 "a.txt") then some (utf8 "hello") else some []

abbrev anywhere : Bytes → Bool
anywhere name = true

abbrev junk : Bytes
junk = replicate 256 7

abbrev first : Message
first = record { kind = pos 0; size = pos 0; filename = junk }

greeting-Copyable : Copyable folder anywhere greeting
greeting-Copyable = record {
  there = refl;
  string = ground arith;
  short = omega arith;
  plain = refl;
  fits = omega arith;
  creatable = refl;
}

nothing-Copyable : Copyable folder anywhere nothing
nothing-Copyable = record {
  there = refl;
  string = ground arith;
  short = omega arith;
  plain = refl;
  fits = omega arith;
  creatable = refl;
}

-- Bytes that no parent has written.
ends_example : child_func anywhere junk (1 ∷ 2 ∷ 3 ∷ []) ≢ stuck
ends_example = child_func-ends anywhere junk (1 ∷ 2 ∷ 3 ∷ [])

abbrev obliging : Answers
obliging = record { makes = λ name. true; pipes = true; forks = true }

abbrev here : Folder
here = record { open_file = folder; opens = anywhere; same_file = str_eq }

main-copies_example :
    (r : Run) × (es : List Effect) × (main obliging here first junk []
        (named (utf8 "p") ∷ [])
        (utf8 "-p" ∷ utf8 "p" ∷ utf8 "a.txt" ∷ utf8 "b" ∷ [])
      ≡ finished r)
    × (r.effects ≡ ok es)
    × (made es ≡ (utf8 "a.txt.copy", utf8 "hello") ∷ (utf8 "b.copy", []) ∷ [])
    × AllClosed same r.child
    × AllClosed same r.parent
    × (r.fifos ≡ [])
unfolding has_name interferes
main-copies_example =
    main-copies obliging here first junk [] (some (utf8 "p")) greeting (nothing ∷ []) refl
      (greeting-Copyable, (nothing-Copyable, tt)) (omega arith, refl, refl, refl, refl, refl) refl

pipe-overrun_example :
    is_overrun (make_pipes obliging [] (parse_options none (named (replicate 255 112) ∷ [])))
    ≡ (length {A = ℕ} (replicate 255 112) == 255)
pipe-overrun_example = make_pipes-overrun obliging [] (replicate 255 112)
