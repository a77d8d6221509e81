-- ===== src/Shm/Roles.antt =====
-- main of 04/main.c and 05/main.c around the loops: which program a process is, and what it leaves behind.
--
-- `sysv` is true for 04/main.c. A start runs up to the loop, with no other start in between; the Answers
-- say which calls of the kernel work, apart from an object being there or missing.
use eltex_modul.Common.{
  ℕ, ◌≡◌, refl, ◌∙◌, ap, Bool, true, false, not, ◌&&◌, ◌||◌, Option, none, some, List, [], ◌∷◌,
  if◌then◌else◌, Bool-cases, inl, inr,
}
use eltex_modul.Common.Int.{pos}
use eltex_modul.Shm.{Memory}
use eltex_modul.Shm.Locking.{start_pair}

-- The semaphore with its value, and the segment.
pub record Kernel : Type 0 where
  pub semaphore : Option ℕ
  pub segment : Option Memory

-- semget or sem_open with and without O_CREAT; semctl SETVAL; shmget or shm_open likewise; ftruncate;
-- shmat or mmap; and the calls that remove the two.
pub record Answers : Type 0 where
  pub makes_semaphore : Bool
  pub opens_semaphore : Bool
  pub sets_value : Bool
  pub makes_segment : Bool
  pub opens_segment : Bool
  pub sizes_segment : Bool
  pub maps_segment : Bool
  pub removes_segment : Bool
  pub removes_semaphore : Bool

pub data Started : Type 0 where
  quit : Kernel → Started
  producing : Kernel → Started
  consuming : Kernel → Started

abbrev pub is_there {ℓ} : {A : Type ℓ} → Option A → Bool
is_there none = false
is_there (some x) = true

unfoldable pub start_consumer : Answers → Kernel → Started
start_consumer a k =
    if not a.opens_semaphore
    then quit k
    else if not (is_there k.segment && a.opens_segment)
    then quit k
    else if a.maps_segment
    then consuming k
    else quit k

abbrev pub cleared : Memory
cleared i = pos 0

-- A segment that the kernel makes is all zero, and memset clears it again.
abbrev pub with_segment : Kernel → Kernel
with_segment k = record k { segment = some cleared }

-- Behind the semaphore, whose value is 1 here.
unfoldable pub make_segment : Bool → Answers → Kernel → Started
make_segment sysv a k =
    if is_there k.segment || not a.makes_segment
    then quit k
    else if not (sysv || a.sizes_segment)
    then quit (with_segment k)
    else if a.maps_segment
    then producing (with_segment k)
    else quit (with_segment k)

-- 04 makes the semaphore with the value 0 and sets it, 05 makes it with the value 1.
unfoldable pub start_producer : Bool → Answers → Kernel → Started
unfolding make_segment
start_producer sysv a k =
    if sysv && not a.sets_value
    then quit (record k { semaphore = some 0 })
    else make_segment sysv a (record k { semaphore = some 1 })

unfoldable pub start_program : Bool → Answers → Kernel → Started
unfolding start_consumer start_producer
start_program sysv a k =
    if is_there k.semaphore
    then start_consumer a k
    else if a.makes_semaphore
    then start_producer sysv a k
    else quit k

-- Behind the loop of the producer; the consumer removes nothing.
unfoldable pub end_producer : Answers → Kernel → Kernel
end_producer a k = record {
  semaphore = if a.removes_semaphore then none else k.semaphore;
  segment = if a.removes_segment then none else k.segment;
}

abbrev pub left_by : Started → Kernel
left_by (quit k) = k
left_by (producing k) = k
left_by (consuming k) = k

abbrev pub is_producing : Started → Bool
is_producing (quit k) = false
is_producing (producing k) = true
is_producing (consuming k) = false

-- Whether one of several starts, one after the other, is a producer.
unfoldable pub any_producing : Bool → Kernel → List Answers → Bool
any_producing sysv k [] = false
any_producing sysv k (a ∷ more) =
    let s = start_program sysv a k in is_producing s || any_producing sysv (left_by s) more

-- A process that finds the semaphore changes nothing and is no producer.
consumer-same :
    (a : Answers) (k : Kernel)
    → (left_by (start_consumer a k) ≡ k) × (is_producing (start_consumer a k) ≡ false)
unfolding start_consumer
consumer-same a k = elim (Bool-cases a.opens_semaphore) [
  | inr e ↦ rw e (refl, refl)
  | inl e ↦ elim (Bool-cases (is_there k.segment && a.opens_segment)) [
    | inr f ↦ rw (e, f) (refl, refl)
    | inl f ↦ elim (Bool-cases a.maps_segment) [
      | inr g ↦ rw (e, f, g) (refl, refl)
      | inl g ↦ rw (e, f, g) (refl, refl)
    ]
  ]
]

found-same :
    (sysv : Bool) (a : Answers) (k : Kernel) (v : ℕ)
    → k.semaphore ≡ some v
    → (left_by (start_program sysv a k) ≡ k) × (is_producing (start_program sysv a k) ≡ false)
unfolding start_program
found-same sysv a k v e = rw e (consumer-same a (record k { semaphore = some v }))

none-producing :
    (sysv : Bool) (k : Kernel) (v : ℕ) (more : List Answers)
    → k.semaphore ≡ some v
    → any_producing sysv k more ≡ false
unfolding any_producing
none-producing sysv k v [] e = refl
none-producing sysv k v (a ∷ more) e =
    let (same, no_producer) = found-same sysv a k v e in
    rw no_producer (ap (λ q. any_producing sysv q more) same ∙ none-producing sysv k v more e)

-- In 04/main.c and in 05/main.c, when the semaphore is not there and is made, and the segment cannot be
-- made, as it is there or for another reason: the process exits and leaves the semaphore behind; and from
-- then on, however many processes are started and whichever calls work, none is a producer.
pub start-left_behind :
    (sysv : Bool) (a : Answers) (k : Kernel) (later : List Answers)
    → k.semaphore ≡ none
    → a.makes_semaphore ≡ true
    → a.sets_value ≡ true
    → (is_there k.segment || not a.makes_segment) ≡ true
    → (start_program sysv a k ≡ quit (record k { semaphore = some 1 }))
      × (any_producing sysv (record k { semaphore = some 1 }) later ≡ false)
unfolding start_program start_producer make_segment
start-left_behind sysv a k later e makes sets fails =
    (made sysv, none-producing sysv (record k { semaphore = some 1 }) 1 later refl)
  where
    made : (b : Bool) → start_program b a k ≡ quit (record k { semaphore = some 1 })
    made true = rw (e, makes, sets, fails) refl
    made false = rw (e, makes, fails) refl

-- The state that a producer starts from.
record IsFresh (k : Kernel) : Type 0 where
  free : k.semaphore ≡ some start_pair.value
  clear : k.segment ≡ some start_pair.system.memory

abbrev Produces : Started → Type 0
Produces (quit k) = Unit {0}
Produces (producing k) = IsFresh k
Produces (consuming k) = Unit {0}

segment-Produces :
    (sysv : Bool) (a : Answers) (k : Kernel)
    → k.semaphore ≡ some 1
    → Produces (make_segment sysv a k)
unfolding make_segment
segment-Produces sysv a k e = elim (Bool-cases (is_there k.segment || not a.makes_segment)) [
  | inl f ↦ rw f tt
  | inr f ↦ elim (Bool-cases (sysv || a.sizes_segment)) [
    | inr g ↦ rw (f, g) tt
    | inl g ↦ elim (Bool-cases a.maps_segment) [
      | inr h ↦ rw (f, g, h) tt
      | inl h ↦ rw (f, g, h) (record { free = e; clear = refl })
    ]
  ]
]

start-Produces : (sysv : Bool) (a : Answers) (k : Kernel) → Produces (start_program sysv a k)
unfolding start_program start_producer
start-Produces sysv a k = elim (Bool-cases (is_there k.semaphore)) [
  | inl e ↦ rw e (consumer-Produces (start_consumer a k) (consumer-same a k).1)
  | inr e ↦ elim (Bool-cases a.makes_semaphore) [
    | inr f ↦ rw (e, f) tt
    | inl f ↦ elim (Bool-cases (sysv && not a.sets_value)) [
      | inl g ↦ rw (e, f, g) tt
      | inr g ↦ rw (e, f, g) (segment-Produces sysv a (record k { semaphore = some 1 }) refl)
    ]
  ]
]
  where
    consumer-Produces : (s : Started) → is_producing s ≡ false → Produces s
    consumer-Produces (quit k) e = tt
    consumer-Produces (producing k) e = cc
    consumer-Produces (consuming k) e = tt

-- In 04/main.c and in 05/main.c, whatever is there and whichever calls work: when a start is a producer,
-- the semaphore is free and the cells are cleared, as the steps of Shm/Locking start; while the producer
-- runs, no further start is a producer, however many there are; and when the calls that remove the two
-- work, its end leaves neither.
pub start-producer :
    (sysv : Bool) (a b : Answers) (k k' : Kernel) (later : List Answers)
    → start_program sysv a k ≡ producing k'
    → b.removes_semaphore ≡ true
    → b.removes_segment ≡ true
    → (k'.semaphore ≡ some start_pair.value)
      × (k'.segment ≡ some start_pair.system.memory)
      × (any_producing sysv k' later ≡ false)
      × (end_producer b k' ≡ record { semaphore = none; segment = none })
unfolding end_producer
start-producer sysv a b k k' later e f g =
    let fresh : IsFresh k' = rw e at (start-Produces sysv a k) in
    (
      fresh.free,
      fresh.clear,
      none-producing sysv k' start_pair.value later fresh.free,
      rw (f, g) refl,
    )
