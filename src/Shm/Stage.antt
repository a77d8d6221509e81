-- ===== src/Shm/Stage.antt =====
-- Where producer and consumer of 05/main.c stand, and what a block that the producer writes changes.
use eltex_modul.Common.{
  ℕ, ◌+◌, ◌-◌, ◌≤◌, ◌<◌, ◌≡◌, refl, sym, ap, ◌∙◌, inl, inr, List, [], ◌∷◌, ◌++◌, ◌==◌, arith,
  length, append-nil, Bool-cases,
}
use eltex_modul.Common.Int.{ℤ, pos, negsuc}
use eltex_modul.Shm.{
  Memory, writing, waiting, finished, reading, stopped, System, Block, shm_cells, offset_of,
  block_size, draws,
}
use eltex_modul.Shm.Cells.{Written, numbers_of, length-draws, block_size-fits}
use eltex_modul.Shm.Reads.{owed, reports, reports-append}

abbrev pub Clean : Memory → ℕ → Type 0
Clean m i = (j : ℕ) → i ≤ j → m j ≡ pos 0

-- A block of size 0 at the cells 254 and 255, the last ones.
pub record EmptyBlock (m : Memory) : Type 0 where
  pub size : m 254 ≡ pos 0
  pub link : m 255 ≡ pos 256

pub record EndMark (m : Memory) (at : ℕ) : Type 0 where
  pub size : m at ≡ negsuc 0
  pub link : m (at + 1) ≡ pos 0

-- A block that is there and not yet read.
pub record Unread (s : System) (at rest : ℕ) (vs : List ℤ) : Type 0 where
  pub before : Memory
  pub block : Written before at vs s.memory
  pub some_numbers : 0 < length vs
  pub rest_fits : rest ≤ shm_cells
  pub next : at + length vs + 2 ≡ offset_of rest
  pub clean : Clean s.memory (offset_of rest)
  pub log : s.log ++ owed at vs ≡ reports s.written

-- All blocks that have been written are reported.
pub record UpToDate (s : System) (rest : ℕ) : Type 0 where
  pub rest_fits : rest ≤ shm_cells
  pub clean : Clean s.memory (offset_of rest)
  pub log : s.log ≡ reports s.written

-- The states of the two programs: the consumer is at the block that is written next; before the empty
-- block, which is behind it only at the very end; at a block that it has not read, or behind it while the
-- producer has not yet seen that; and the same at the end mark.
pub data Stage (s : System) : Type 0 where
  idle :
      (rest : ℕ)
      → s.producer ≡ writing rest
      → s.consumer ≡ reading (offset_of rest)
      → UpToDate s rest
      → Stage s
  late :
      s.producer ≡ writing 0
      → s.consumer ≡ reading 254
      → EmptyBlock s.memory
      → UpToDate s 0
      → Stage s
  full :
      (at rest : ℕ) (vs : List ℤ)
      → s.producer ≡ waiting at rest
      → s.consumer ≡ reading at
      → Unread s at rest vs
      → Stage s
  done :
      (at rest : ℕ)
      → s.producer ≡ waiting at rest
      → s.consumer ≡ reading (offset_of rest)
      → s.memory at ≡ pos 0
      → UpToDate s rest
      → Stage s
  empty :
      s.producer ≡ waiting 254 0
      → s.consumer ≡ reading 254
      → EmptyBlock s.memory
      → UpToDate s 0
      → Stage s
  ended :
      (at : ℕ)
      → at ≤ 256
      → s.producer ≡ finished
      → s.consumer ≡ reading at
      → EndMark s.memory at
      → s.log ≡ reports s.written
      → Stage s
  ended_late :
      s.producer ≡ finished
      → s.consumer ≡ reading 254
      → EmptyBlock s.memory
      → EndMark s.memory 256
      → s.log ≡ reports s.written
      → Stage s
  over : s.producer ≡ finished → s.consumer ≡ stopped → s.log ≡ reports s.written → Stage s

abbrev pub blocks_and : List Block → ℕ → List ℤ → List Block
blocks_and bs at vs = bs ++ record { at = at; numbers = vs } ∷ []

-- What a block adds to the reports that are due.
due :
    (s : System) (at : ℕ) (vs : List ℤ)
    → s.log ≡ reports s.written
    → s.log ++ owed at vs ≡ reports (blocks_and s.written at vs)
due s at vs l =
    ap (λ r. r ++ owed at vs) l ∙ sym (reports-append s.written (record { at = at; numbers = vs }))

nothing_due :
    (s : System) (at : ℕ) (vs : List ℤ)
    → vs ≡ []
    → s.log ≡ reports s.written
    → s.log ≡ reports (blocks_and s.written at vs)
unfolding owed
nothing_due s at vs e l =
    sym (append-nil s.log) ∙ ap (λ r. s.log ++ owed at r) (sym e) ∙ due s at vs l

no_numbers : (draw : ℕ → ℤ) (random : ℕ) → numbers_of draw random 2 ≡ []
unfolding draws
no_numbers draw random = let none_left : block_size random 2 ≡ 0 = ground arith in rw none_left refl

abbrev pub with_block : System → Memory → ℕ → ℕ → (ℕ → ℤ) → System
with_block s m' rest random draw = record s {
  memory = m';
  producer = waiting (offset_of rest) (rest - block_size random rest - 2);
  written = blocks_and s.written (offset_of rest) (numbers_of draw random rest);
}

Written-clean :
    (m m' : Memory) (at i j : ℕ) (vs : List ℤ)
    → Clean m i
    → Written m at vs m'
    → at + length vs + 2 ≤ j
    → i ≤ j
    → Clean m' j
Written-clean m m' at i j vs clean w le le' =
    λ k more. w.behind k (omega arith) ∙ clean k (omega arith)

full-Stage :
    (s : System) (m' : Memory) (rest random : ℕ) (draw : ℕ → ℤ)
    → 2 < rest
    → s.consumer ≡ reading (offset_of rest)
    → UpToDate s rest
    → Written s.memory (offset_of rest) (numbers_of draw random rest) m'
    → Stage (with_block s m' rest random draw)
full-Stage s m' rest random draw more c u w =
    let n = block_size random rest in
    let small = block_size-fits random rest (omega arith) in
    let some_size : 0 < n = ground arith in
    let len = length-draws draw 0 n in
    let to = rest - n - 2 in
    let fits = u.rest_fits in
    full (offset_of rest) to (numbers_of draw random rest) refl c (record {
      before = s.memory;
      block = w;
      some_numbers = omega (arith, len);
      rest_fits = omega (arith, fits);
      next = omega (arith, len, fits);
      clean =
          Written-clean s.memory m' (offset_of rest) (offset_of rest) (offset_of to)
            (numbers_of draw random rest) u.clean w (omega (arith, len, fits))
            (omega (arith, fits));
      log = due s (offset_of rest) (numbers_of draw random rest) u.log;
    })

empty-Stage :
    (s : System) (m' : Memory) (random : ℕ) (draw : ℕ → ℤ)
    → s.consumer ≡ reading 254
    → UpToDate s 2
    → Written s.memory 254 (numbers_of draw random 2) m'
    → Stage (with_block s m' 2 random draw)
empty-Stage s m' random draw c u w =
    let none_left : block_size random 2 ≡ 0 = ground arith in
    let gone = no_numbers draw random in
    let len = ap length gone in
    empty (ap (waiting 254) (omega (arith, none_left))) c
      (record { size = w.size ∙ ap pos len; link = w.link ∙ ap pos (omega (arith, len)) })
      (record {
        rest_fits = omega arith;
        clean =
            Written-clean s.memory m' 254 254 256 (numbers_of draw random 2) u.clean w
              (omega (arith, len)) (omega arith);
        log = nothing_due s 254 (numbers_of draw random 2) gone u.log;
      })

pub block-Stage :
    (s : System) (m' : Memory) (rest random : ℕ) (draw : ℕ → ℤ)
    → 2 ≤ rest
    → s.consumer ≡ reading (offset_of rest)
    → UpToDate s rest
    → Written s.memory (offset_of rest) (numbers_of draw random rest) m'
    → Stage (with_block s m' rest random draw)
block-Stage s m' rest random draw two c u w = elim (Bool-cases (rest == 2)) [
  | inr e ↦ full-Stage s m' rest random draw (ground (arith, e)) c u w
  | inl e ↦
      let is : rest ≡ 2 = ground (arith, e) in
      let c' : s.consumer ≡ reading 254 = c ∙ ap (λ r. reading (offset_of r)) is in
      let u' : UpToDate s 2 = rw is at u in
      let w' : Written s.memory 254 (numbers_of draw random 2) m' = rw is at w in
      rw is (empty-Stage s m' random draw c' u' w')
]
