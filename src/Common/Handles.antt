-- ===== src/Common/Handles.antt =====
-- Traces of the descriptors that a process opens and closes.
use eltex_modul.Common.{ℕ, suc, ◌≤◌, ◌≡◌, Bool, List, [], ◌∷◌, if◌then◌else◌}

pub data Event {ℓ} (A : Type ℓ) : Type ℓ where
  opened : A → Event A
  closed : A → Event A

-- How often a descriptor is opened, and how often it is closed.
unfoldable pub opens_of {ℓ} : {A : Type ℓ} → (A → A → Bool) → A → List (Event A) → ℕ
opens_of same h [] = 0
opens_of same h (opened k ∷ es) = let n = opens_of same h es in if same h k then suc n else n
opens_of same h (closed k ∷ es) = opens_of same h es

unfoldable pub closes_of {ℓ} : {A : Type ℓ} → (A → A → Bool) → A → List (Event A) → ℕ
closes_of same h [] = 0
closes_of same h (opened k ∷ es) = closes_of same h es
closes_of same h (closed k ∷ es) = let n = closes_of same h es in if same h k then suc n else n

-- Each descriptor is opened at most once, and closed as often as it is opened.
abbrev pub AllClosed {ℓ} : {A : Type ℓ} → (A → A → Bool) → List (Event A) → Type ℓ
AllClosed {A = A} same events =
    (h : A) → (closes_of same h events ≡ opens_of same h events) × (opens_of same h events ≤ 1)
