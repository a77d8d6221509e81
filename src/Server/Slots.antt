-- ===== src/Server/Slots.antt =====
-- Filling a free slot of the client table of 07/server.c.
use eltex_modul.Common.{
  ℕ, zero, suc, ◌+◌, ◌≡◌, refl, ap, inl, inr, true, false, none, some, List, [], ◌∷◌, length, set,
  arith, ◌<◌, Bool-cases,
}
use eltex_modul.Common.Int.{ℤ, ◌==ℤ◌}
use eltex_modul.Server.{Client, find_in, free_slot_from}
use eltex_modul.Server.Inv.{active_count, WellFormed, Table, ==ℤ→eq, ==ℤ_sym, ==ℤ_refl}

-- Slot `k` is the first that is not active.
abbrev pub FreeAt : List Client → ℕ → Type 0
FreeAt [] k = ⊥
FreeAt (c ∷ cs) zero = c.active ≡ false
FreeAt (c ∷ cs) (suc k) = (c.active ≡ true) × FreeAt cs k

pub free_slot-FreeAt :
    (i : ℕ) (cs : List Client)
    → active_count cs < length cs
    → (k : ℕ) × (free_slot_from i cs ≡ some (i + k)) × FreeAt cs k
unfolding free_slot_from
free_slot-FreeAt i [] h = absurd (omega arith)
free_slot-FreeAt i (c ∷ cs) h = elim (Bool-cases c.active) [
  | inl a ↦
      let (k, e, f) = free_slot-FreeAt (suc i) cs (ground arith) in
      (suc k, rw a (rw e (ground arith)), (a, f))
  | inr b ↦ (0, rw b (ground arith), b)
]

-- What becomes of the table when the free slot `k` gets the client `d`.
pub record Filled (cs : List Client) (d : Client) (ds : List Client) : Type 0 where
  pub size : length ds ≡ length cs
  pub count : active_count ds ≡ suc (active_count cs)
  pub table : Table ds
  pub others : (gd : ℤ) → (gd ==ℤ d.fd) ≡ false → find_in gd ds ≡ find_in gd cs
  pub there : find_in d.fd ds ≡ some d

pub set-Filled :
    (d : Client)
    → WellFormed d
    → d.active ≡ true
    → (cs : List Client) (k : ℕ) → FreeAt cs k
    → Table cs
    → find_in d.fd cs ≡ none
    → Filled cs d (set cs k d)
unfolding find_in
set-Filled d w a [] k f t e = absurd f
set-Filled d w a (c ∷ cs) zero f t e = record {
  size = refl;
  count = ground arith;
  table = ground arith;
  others = λ gd ne. ground (arith, ==ℤ_sym gd d.fd);
  there = ground (arith, ==ℤ_refl d.fd);
}
set-Filled d w a (c ∷ cs) (suc k) f t e =
    let r = set-Filled d w a cs k f.1 t.2 (ground arith) in
    record {
      size = ap suc r.size;
      count = ground (arith, r.count);
      table = ground (arith, r.table, r.others c.fd, ==ℤ_sym c.fd d.fd);
      others = λ gd ne. ground (arith, r.others gd ne);
      there = ground (arith, r.there, ==ℤ→eq c.fd d.fd);
    }
