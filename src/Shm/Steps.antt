-- ===== src/Shm/Steps.antt =====
-- One critical section of the producer or the consumer of 05/main.c, wherever the two stand.
use eltex_modul.Common.{
  ℕ, ◌+◌, ◌≤◌, ◌<◌, ◌≡◌, refl, sym, ap, ◌∙◌, inl, inr, true, false, Option, none, some, List, [],
  ◌++◌, ltb, ◌==◌, arith, length, append-nil, Bool-cases,
}
use eltex_modul.Common.Int.{ℤ, pos, negsuc}
use eltex_modul.Shm.{
  Memory, writing, waiting, finished, reading, System, shm_cells, offset_of, update, write_block,
  put_end, check_block,
}
use eltex_modul.Shm.Cells.{write_block-Written, store-some}
use eltex_modul.Shm.Reads.{reports, read-nothing, read-skip, read-end}
use eltex_modul.Shm.Turn.{read-Written}
use eltex_modul.Shm.Schedule.{produce, consume}
use eltex_modul.Shm.Stage.{
  Clean, EmptyBlock, EndMark, Unread, UpToDate, Stage, idle, late, full, done, empty, ended,
  ended_late, over, block-Stage,
}

-- A turn that goes through.
abbrev pub Goes : Option System → Type 0
Goes none = ⊥
Goes (some s) = Stage s

-- The end mark.
write_end :
    (mapped : ℕ) (m : Memory) (rest random : ℕ) (draw : ℕ → ℤ)
    → rest < 2
    → shm_cells + 2 ≤ mapped
    → write_block mapped m rest random draw
      ≡ some (update (update m (offset_of rest) (negsuc 0)) (offset_of rest + 1) (pos 0), finished)
unfolding write_block put_end
write_end mapped m rest random draw small room =
    let t : ltb rest 2 ≡ true = ground (arith, small) in
    rw
      (
        t,
        store-some mapped m (offset_of rest) (negsuc 0) (omega arith),
        store-some mapped (update m (offset_of rest) (negsuc 0)) (offset_of rest + 1) (pos 0)
            (omega arith),
      )
      refl

end-EndMark : (m : Memory) (at : ℕ) → EndMark (update (update m at (negsuc 0)) (at + 1) (pos 0)) at
end-EndMark m at = record { size = ground arith; link = ground arith }

pub check_block-unread :
    (m : Memory) (at rest n : ℕ) → m at ≡ pos n → 0 < n → check_block m at rest ≡ waiting at rest
unfolding check_block
check_block-unread m at rest n e more = let t : (n == 0) ≡ false = ground arith in rw e (rw t refl)

check_block-read : (m : Memory) (at rest : ℕ) → m at ≡ pos 0 → check_block m at rest ≡ writing rest
unfolding check_block
check_block-read m at rest e = rw e refl

module _ (mapped : ℕ) (room : shm_cells + 2 ≤ mapped) where
  -- The consumer stands where nothing is written yet.
  nothing-Goes :
      (s : System) (at : ℕ)
      → at ≤ 256
      → s.memory at ≡ pos 0
      → s.memory (at + 1) ≡ pos 0
      → Stage (record s { consumer = reading at; log = s.log ++ [] })
      → Goes (consume 2 mapped s (reading at))
  nothing-Goes s at fits e f g = rw (read-nothing 2 mapped s.memory at (omega arith) e f) g

  waits_for_next :
      (s : System) (rest : ℕ)
      → UpToDate s rest
      → UpToDate (record s { consumer = reading (offset_of rest); log = s.log ++ [] }) rest
  waits_for_next s rest u = record {
    rest_fits = u.rest_fits;
    clean = u.clean;
    log = append-nil s.log ∙ u.log;
  }

  -- The consumer skips the empty block.
  skip-Goes :
      (s : System)
      → EmptyBlock s.memory
      → Stage (record s { consumer = reading 256; log = s.log ++ [] })
      → Goes (consume 2 mapped s (reading 254))
  skip-Goes s e g = rw (read-skip 2 mapped s.memory 254 (omega arith) 255 e.size e.link) g

  cleared :
      (s : System) (at rest : ℕ) (vs : List ℤ)
      → Unread s at rest vs
      → Clean (update s.memory at (pos 0)) (offset_of rest)
  cleared s at rest vs u j le =
      let ne : (at == j) ≡ false = ground (arith, u.next, le) in rw ne (u.clean j le)

  report-Goes :
      (s : System) (at rest : ℕ) (vs : List ℤ)
      → s.producer ≡ waiting at rest
      → Unread s at rest vs
      → Goes (consume 2 mapped s (reading at))
  report-Goes s at rest vs p u =
      rw
        (read-Written mapped u.before s.memory at vs u.some_numbers (omega (arith, u.next)) u.block)
        (done at rest p (ap reading u.next) (ground arith)
          (record { rest_fits = u.rest_fits; clean = cleared s at rest vs u; log = u.log }))

  end-Goes :
      (s : System) (at : ℕ)
      → at ≤ 256
      → s.producer ≡ finished
      → EndMark s.memory at
      → s.log ≡ reports s.written
      → Goes (consume 2 mapped s (reading at))
  end-Goes s at fits p e l =
      rw (read-end 2 mapped s.memory at (omega arith) e.size e.link)
        (over p refl (append-nil s.log ∙ l))

  pub consume-Goes : (s : System) → Stage s → Goes (consume 2 mapped s s.consumer)
  consume-Goes s (idle rest p c u) = rw c (
      nothing-Goes s (offset_of rest) (omega arith) (u.clean (offset_of rest) (omega arith))
        (u.clean (offset_of rest + 1) (omega arith)) (idle rest p refl (waits_for_next s rest u)))
  consume-Goes s (late p c e u) = rw c (skip-Goes s e (idle 0 p refl (waits_for_next s 0 u)))
  consume-Goes s (full at rest vs p c u) = rw c (report-Goes s at rest vs p u)
  consume-Goes s (done at rest p c e u) = rw c (
      nothing-Goes s (offset_of rest) (omega arith) (u.clean (offset_of rest) (omega arith))
        (u.clean (offset_of rest + 1) (omega arith))
        (done at rest p refl e (waits_for_next s rest u)))
  consume-Goes s (empty p c e u) =
      rw c (skip-Goes s e (done 254 0 p refl e.size (waits_for_next s 0 u)))
  consume-Goes s (ended at fits p c e l) = rw c (end-Goes s at fits p e l)
  consume-Goes s (ended_late p c e m l) =
      rw c (skip-Goes s e (ended 256 (omega arith) p refl m (append-nil s.log ∙ l)))
  consume-Goes s (over p c l) = rw c (over p refl l)

  -- The producer writes the end mark.
  write_end-Goes :
      (s : System) (rest random : ℕ) (draw : ℕ → ℤ)
      → rest < 2
      → Stage (record s {
        memory = update (update s.memory (offset_of rest) (negsuc 0)) (offset_of rest + 1) (pos 0);
        producer = finished;
        written = s.written ++ [];
      })
      → Goes (produce mapped s random draw (writing rest))
  write_end-Goes s rest random draw small g =
      let t : ltb rest 2 ≡ true = ground (arith, small) in
      rw (write_end mapped s.memory rest random draw small room, t) g

  same_log : (s : System) → s.log ≡ reports s.written → s.log ≡ reports (s.written ++ [])
  same_log s l = l ∙ ap reports (sym (append-nil s.written))

  idle-end :
      (s : System) (rest random : ℕ) (draw : ℕ → ℤ)
      → rest < 2
      → s.consumer ≡ reading (offset_of rest)
      → UpToDate s rest
      → Goes (produce mapped s random draw (writing rest))
  idle-end s rest random draw small c u = write_end-Goes s rest random draw small (
      ended (offset_of rest) (omega arith) refl c (end-EndMark s.memory (offset_of rest))
        (same_log s u.log))

  late-end :
      (s : System) (random : ℕ) (draw : ℕ → ℤ)
      → s.consumer ≡ reading 254
      → EmptyBlock s.memory
      → UpToDate s 0
      → Goes (produce mapped s random draw (writing 0))
  late-end s random draw c e u = write_end-Goes s 0 random draw (omega arith) (
      ended_late refl c (record { size = e.size; link = e.link }) (end-EndMark s.memory 256)
        (same_log s u.log))

  write-Goes :
      (s : System) (rest random : ℕ) (draw : ℕ → ℤ)
      → 2 ≤ rest
      → s.consumer ≡ reading (offset_of rest)
      → UpToDate s rest
      → Goes (produce mapped s random draw (writing rest))
  write-Goes s rest random draw two c u =
      let (m', e, w) =
        write_block-Written mapped s.memory rest random draw two u.rest_fits (omega arith) in
      let t : ltb rest 2 ≡ false = ground arith in
      rw (e, t) (block-Stage s m' rest random draw two c u w)

  -- The producer looks whether its block has been read.
  check-full :
      (s : System) (at rest random : ℕ) (draw : ℕ → ℤ) (vs : List ℤ)
      → s.consumer ≡ reading at
      → Unread s at rest vs
      → Goes (produce mapped s random draw (waiting at rest))
  check-full s at rest random draw vs c u =
      rw (check_block-unread s.memory at rest (length vs) u.block.size u.some_numbers) (
        full at rest vs refl c (record {
          before = u.before;
          block = u.block;
          some_numbers = u.some_numbers;
          rest_fits = u.rest_fits;
          next = u.next;
          clean = u.clean;
          log = u.log;
        }))

  pub produce-Goes :
      (s : System) (random : ℕ) (draw : ℕ → ℤ)
      → Stage s
      → Goes (produce mapped s random draw s.producer)
  produce-Goes s random draw (idle rest p c u) = rw p (elim (Bool-cases (ltb rest 2)) [
    | inl e ↦ idle-end s rest random draw (ground (arith, e)) c u
    | inr e ↦ write-Goes s rest random draw (ground (arith, e)) c u
  ])
  produce-Goes s random draw (late p c e u) = rw p (late-end s random draw c e u)
  produce-Goes s random draw (full at rest vs p c u) =
      rw p (check-full s at rest random draw vs c u)
  produce-Goes s random draw (done at rest p c e u) = rw p (
      rw (check_block-read s.memory at rest e)
        (idle rest refl c (record { rest_fits = u.rest_fits; clean = u.clean; log = u.log })))
  produce-Goes s random draw (empty p c e u) = rw p (
      rw (check_block-read s.memory 254 0 e.size)
        (late refl c e (record { rest_fits = u.rest_fits; clean = u.clean; log = u.log })))
  produce-Goes s random draw (ended at fits p c e l) = rw p (ended at fits refl c e l)
  produce-Goes s random draw (ended_late p c e m l) = rw p (ended_late refl c e m l)
  produce-Goes s random draw (over p c l) = rw p (over refl c l)
