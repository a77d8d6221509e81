-- ===== src/Server/Inv.antt =====
-- What is true of the client table of 07/server.c between two events.
use eltex_modul.Common.{
  ℕ, suc, ◌≡◌, refl, ap, Bool-cases, ◌⊎◌, inl, inr, Bool, true, false, ◌&&◌, Option, none, some,
  List, [], ◌∷◌, if◌then◌else◌, ltb, length, arith,
}
use eltex_modul.Common.Int.{ℤ, pos, negsuc, ◌==ℤ◌, ◌-ℤ◌}
pub use eltex_modul.Common.Int.{==ℤ_refl, ==ℤ→eq}
use eltex_modul.Server.{Client, Server, max_clients, find_in}
use eltex_modul.Server.Message.{take_slot, holds, has_fd, without}
use eltex_modul.Server.Connection.{name_size}

abbrev pub is_some {ℓ} : {A : Type ℓ} → Option A → Bool
is_some none = false
is_some (some a) = true

abbrev pub is_nonneg : ℤ → Bool
is_nonneg (pos n) = true
is_nonneg (negsuc n) = false

abbrev pub active_count : List Client → ℕ
active_count [] = 0
active_count (c ∷ cs) = if c.active then suc (active_count cs) else active_count cs

-- An active slot has a descriptor, any other has -1; the name fits its array.
abbrev pub WellFormed : Client → Type 0
WellFormed c =
    ((if c.active then is_nonneg c.fd else c.fd ==ℤ negsuc 0) ≡ true)
    × (ltb (length c.name) name_size ≡ true)

-- Well-formed slots, no descriptor in two active ones.
abbrev pub Table : List Client → Type 0
Table [] = Unit {0}
Table (c ∷ cs) = WellFormed c × ((c.active && is_some (find_in c.fd cs)) ≡ false) × Table cs

pub record Inv (s : Server) : Type 0 where
  pub size : length s.clients ≡ max_clients
  pub count : s.client_count ≡ pos (active_count s.clients)
  pub table : Table s.clients

-- For a descriptor the two tests of the code pick the same slot, the one that is found.
pub take_slot-tests :
    (n : ℕ) (cs : List Client)
    → Table cs
    → take_slot (has_fd (pos n)) cs ≡ take_slot (holds (pos n)) cs
unfolding take_slot
take_slot-tests n [] t = refl
take_slot-tests n (c ∷ cs) t = ground (arith, take_slot-tests n cs t.2)

abbrev pub slot_client : Option (Client × List Client) → Option Client
slot_client none = none
slot_client (some (c, cs)) = some c

pub take_slot-find_in :
    (fd : ℤ) (cs : List Client) → slot_client (take_slot (holds fd) cs) ≡ find_in fd cs
unfolding take_slot find_in
take_slot-find_in fd [] = refl
take_slot-find_in fd (c ∷ cs) = ground (arith, take_slot-find_in fd cs)

-- What is left of the table when the slot of `fd` is given up.
pub record Left (fd : ℤ) (cs ds : List Client) : Type 0 where
  pub size : length ds ≡ length cs
  pub count : suc (active_count ds) ≡ active_count cs
  pub table : Table ds
  pub others : (gd : ℤ) → (gd ==ℤ fd) ≡ false → find_in gd ds ≡ find_in gd cs
  pub gone : find_in fd ds ≡ none

pub ==ℤ_sym : (a b : ℤ) → (a ==ℤ b) ≡ (b ==ℤ a)
==ℤ_sym (pos a) (pos b) = ground arith
==ℤ_sym (pos a) (negsuc b) = refl
==ℤ_sym (negsuc a) (pos b) = refl
==ℤ_sym (negsuc a) (negsuc b) = ground arith

Left-here :
    (fd : ℤ) (c : Client) (cs : List Client)
    → Table (c ∷ cs)
    → holds fd c ≡ true
    → Left fd (c ∷ cs) (record c { fd = negsuc 0; active = false } ∷ cs)
unfolding find_in
Left-here fd c cs t h = record {
  size = refl;
  count = ground arith;
  table = ground arith;
  others = λ gd ne. ground (arith, ==ℤ→eq c.fd fd, ==ℤ_sym gd fd);
  gone = ground (arith, ==ℤ→eq c.fd fd);
}

Left-there :
    (n : ℕ) (c : Client) (cs ds : List Client)
    → Table (c ∷ cs)
    → holds (pos n) c ≡ false
    → Left (pos n) cs ds
    → Left (pos n) (c ∷ cs) (c ∷ ds)
unfolding find_in
Left-there n c cs ds t h l = record {
  size = ap suc l.size;
  count = ground (arith, l.count);
  table = ground (arith, l.table, l.others c.fd);
  others = λ gd ne. ground (arith, l.others gd ne);
  gone = ground (arith, l.gone);
}

-- Either no slot passes, or one is given up and the rest of the table is as it was.
abbrev pub Taken : ℤ → List Client → Option (Client × List Client) → Type 0
Taken fd cs r =
    (r ≡ none) ⊎ ((c : Client) × (ds : List Client) × (r ≡ some (c, ds)) × Left fd cs ds)

pub take_slot-Taken :
    (n : ℕ) (cs : List Client) → Table cs → Taken (pos n) cs (take_slot (holds (pos n)) cs)
unfolding take_slot
take_slot-Taken n [] t = inl refl
take_slot-Taken n (d ∷ cs) t = elim (Bool-cases (holds (pos n) d)) [
  | inl h ↦ inr (d, _, rw h refl, Left-here (pos n) d cs t h)
  | inr h ↦ elim (take_slot-Taken n cs t.2) [
    | inl e ↦ inl (rw (h, e) refl)
    | inr (c, ds, e, l) ↦ inr (c, d ∷ ds, rw (h, e) refl, Left-there n d cs ds t h l)
  ]
]

pub without-Inv :
    (s : Server) (n : ℕ) (ds : List Client) → Inv s → Left (pos n) s.clients ds → Inv (without s ds)
unfolding ◌-ℤ◌
without-Inv s n ds v l = record {
  size = ground (arith, l.size, v.size);
  count = ground (arith, l.count, v.count);
  table = l.table;
}
