-- ===== src/Shm/Twins.antt =====
-- 04/main.c beside 05/main.c: the two differ in what they print, and in nothing else.
use eltex_modul.Common.{
  ℕ, ◌+◌, ◌≤◌, ◌≡◌, refl, sym, ap, ◌∙◌, Option, none, some, List, [], ◌∷◌, ◌++◌, arith, map,
}
use eltex_modul.Common.Int.{ℤ}
use eltex_modul.Shm.{
  Memory, Producer, writing, waiting, finished, Consumer, reading, stopped, System, Report, Block,
  Range, Read, ◌>>=◌, shm_cells, write_block, handle_numbers, read_block, sysv_number, posix_number,
}
use eltex_modul.Shm.Schedule.{
  Actor, produces, consumes, block_of, produce, consume, turn_of, turns, cleared_system,
}
use eltex_modul.Shm.Order.{turns-InOrder}

-- A report with another range.
abbrev pub with_range : Range → List Report → List Report
with_range range [] = []
with_range range (r ∷ rs) = record r { range = range } ∷ with_range range rs

read_block-shifted :
    (mapped : ℕ) (m : Memory) (at : ℕ) (r : Read)
    → read_block 2 mapped m at ≡ some r
    → read_block 0 mapped m at
      ≡ some (record r { printed = with_range (handle_numbers (m at) (at + 0) m) r.printed })
unfolding read_block
read_block-shifted mapped m at r e = ground arith

-- What a report is about: the block and where the next one is.
abbrev pub spans : List Report → List (ℕ × ℤ)
spans [] = []
spans (r ∷ rs) = (r.from, r.to) ∷ spans rs

spans-append : (rs qs : List Report) → spans (rs ++ qs) ≡ spans rs ++ spans qs
spans-append [] qs = refl
spans-append (r ∷ rs) qs = ap (λ x. (r.from, r.to) ∷ x) (spans-append rs qs)

spans-with_range : (range : Range) (rs : List Report) → spans (with_range range rs) ≡ spans rs
spans-with_range range [] = refl
spans-with_range range (r ∷ rs) = ap (λ x. (r.from, r.to) ∷ x) (spans-with_range range rs)

spans-both :
    (rs qs ps os : List Report)
    → spans rs ≡ spans qs
    → spans ps ≡ spans os
    → spans (rs ++ ps) ≡ spans (qs ++ os)
spans-both rs qs ps os e f = spans-append rs ps ∙ (λ i. e i ++ f i) ∙ sym (spans-append qs os)

-- One program after a turn, beside the other.
pub record Twin (r : Option System) (s : System) : Type 0 where
  pub log : List Report
  pub run : r ≡ some (record s { log = log })
  pub alike : spans log ≡ spans s.log

some_inj : {s t : System} → some s ≡ some t → s ≡ t
some_inj e = cc

written-Twin :
    (s s' : System) (l : List Report) (bs : List Block) (w : Option (Memory × Producer))
    → (w >>= λ r. some (record s { memory = r.0; producer = r.1; written = bs })) ≡ some s'
    → spans l ≡ spans s.log
    → Twin (w >>= λ r. some (record s { memory = r.0; producer = r.1; written = bs; log = l })) s'
written-Twin s s' l bs none e same = cc
written-Twin s s' l bs (some w) e same =
    rw (← some_inj e) (record { log = l; run = refl; alike = same })

produce-Twin :
    (mapped : ℕ) (s s' : System) (l : List Report) (random : ℕ) (draw : ℕ → ℤ) (p : Producer)
    → produce mapped s random draw p ≡ some s'
    → spans l ≡ spans s.log
    → Twin (produce mapped (record s { log = l }) random draw p) s'
produce-Twin mapped s s' l random draw (writing rest) e same =
    written-Twin s s' l (s.written ++ block_of rest random draw)
      (write_block mapped s.memory rest random draw) e same
produce-Twin mapped s s' l random draw (waiting at rest) e same =
    rw (← some_inj e) (record { log = l; run = refl; alike = same })
produce-Twin mapped s s' l random draw finished e same =
    rw (← some_inj e) (record { log = l; run = refl; alike = same })

read-Twin :
    (mapped : ℕ) (s s' : System) (l : List Report) (at : ℕ) (q : Option Read)
    → read_block 2 mapped s.memory at ≡ q
    → (q >>= λ r.
        some (record s { memory = r.memory; consumer = r.consumer; log = s.log ++ r.printed }))
      ≡ some s'
    → spans l ≡ spans s.log
    → Twin (consume 0 mapped (record s { log = l }) (reading at)) s'
read-Twin mapped s s' l at none f e same = cc
read-Twin mapped s s' l at (some r) f e same =
    let range = handle_numbers (s.memory at) (at + 0) s.memory in
    let shifted = read_block-shifted mapped s.memory at r f in
    rw (← some_inj e) (record {
      log = l ++ with_range range r.printed;
      run = rw shifted refl;
      alike =
          spans-both l s.log (with_range range r.printed) r.printed same
            (spans-with_range range r.printed);
    })

consume-Twin :
    (mapped : ℕ) (s s' : System) (l : List Report) (c : Consumer)
    → consume 2 mapped s c ≡ some s'
    → spans l ≡ spans s.log
    → Twin (consume 0 mapped (record s { log = l }) c) s'
consume-Twin mapped s s' l (reading at) e same =
    read-Twin mapped s s' l at (read_block 2 mapped s.memory at) refl e same
consume-Twin mapped s s' l stopped e same =
    rw (← some_inj e) (record { log = l; run = refl; alike = same })

turn_of-Twin :
    (mapped : ℕ) (s s' : System) (l : List Report) (a : Actor)
    → turn_of 2 mapped s a ≡ some s'
    → spans l ≡ spans s.log
    → Twin (turn_of 0 mapped (record s { log = l }) a) s'
unfolding turn_of
turn_of-Twin mapped s s' l (produces random draw) e same =
    produce-Twin mapped s s' l random draw s.producer e same
turn_of-Twin mapped s s' l consumes e same = consume-Twin mapped s s' l s.consumer e same

pub bind_some :
    (r : Option System) (k : System → Option System) {s : System}
    → (r >>= k) ≡ some s
    → (t : System) × (r ≡ some t) × (k t ≡ some s)
bind_some none k e = cc
bind_some (some t) k e = (t, refl, e)

turns-Twin :
    (mapped : ℕ) (actors : List Actor) (s s' : System) (l : List Report)
    → turns 2 mapped s actors ≡ some s'
    → spans l ≡ spans s.log
    → Twin (turns 0 mapped (record s { log = l }) actors) s'
unfolding turns
turns-Twin mapped [] s s' l e same =
    rw (← some_inj e) (record { log = l; run = refl; alike = same })
turns-Twin mapped (a ∷ more) s s' l e same =
    let (t, f, g) = bind_some (turn_of 2 mapped s a) (λ t. turns 2 mapped t more) e in
    let w = turn_of-Twin mapped s t l a f same in
    let rest = turns-Twin mapped more t s' w.log g w.alike in
    record { log = rest.log; run = rw w.run rest.run; alike = rest.alike }

pub same_turns-Twins :
    (mapped : ℕ) (actors : List Actor)
    → shm_cells + 2 ≤ mapped
    → (s : System) × (turns 2 mapped cleared_system actors ≡ some s)
      × Twin (turns 0 mapped cleared_system actors) s
same_turns-Twins mapped actors room =
    let (s, e, o) = turns-InOrder mapped actors room in
    (s, e, turns-Twin mapped actors cleared_system s [] e refl)

-- A turn of both programs: the same number for the size of a block, and what rand gives each for its cells.
pub data Both : Type 0 where
  both_produce : (random : ℕ) (sysv posix : ℕ → ℕ) → Both
  both_consume : Both

abbrev pub sysv_turn : Both → Actor
sysv_turn (both_produce random sysv posix) = produces random (λ k. sysv_number (sysv k))
sysv_turn both_consume = consumes

abbrev pub posix_turn : Both → Actor
posix_turn (both_produce random sysv posix) = produces random (λ k. posix_number (posix k))
posix_turn both_consume = consumes

-- The numbers that the two write are the same.
abbrev pub AllSame : List Both → Type 0
AllSame [] = Unit {0}
AllSame (both_produce random sysv posix ∷ more) =
    ((k : ℕ) → sysv_number (sysv k) ≡ posix_number (posix k)) × AllSame more
AllSame (both_consume ∷ more) = AllSame more

same_turns : (both : List Both) → AllSame both → map sysv_turn both ≡ map posix_turn both
same_turns [] h = refl
same_turns (both_produce random sysv posix ∷ more) h =
    λ i. produces random (λ k. h.0 k i) ∷ same_turns more h.1 i
same_turns (both_consume ∷ more) h = ap (λ as'. consumes ∷ as') (same_turns more h)

-- 04/main.c and 05/main.c, from cleared cells on and with two more cells mapped than the 256 in use, given
-- the same turns, the same numbers for the sizes of the blocks, and numbers from rand for which both write
-- the same into the cells (04 the number itself, 05 its rest by 20001 less 10000): both go through with no
-- access to a cell that is not mapped, and end with the same cells, the same blocks written and both
-- programs at the same point. Each prints a report for the same blocks in the same order; only the ranges
-- in them may differ.
pub turns-Twins :
    (mapped : ℕ) (both : List Both)
    → shm_cells + 2 ≤ mapped
    → AllSame both
    → (s : System) × (turns 2 mapped cleared_system (map posix_turn both) ≡ some s)
      × Twin (turns 0 mapped cleared_system (map sysv_turn both)) s
turns-Twins mapped both room h =
    rw (same_turns both h) (same_turns-Twins mapped (map posix_turn both) room)
