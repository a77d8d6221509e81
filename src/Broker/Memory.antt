-- ===== src/Broker/Memory.antt =====
-- Nodes in memory: the lists of subscribers, publishers and topics of 02/src/types.h. Each is a chain
-- of nodes by `next`, with a pointer to its head and one to its tail.
use eltex_modul.Common.{true, false, ℕ, zero, suc, Bool, Option, none, some, ◌==◌, if◌then◌else◌}

-- What a call gives: a value, an access through NULL or to what is no node, or no end within the fuel.
pub data Run {ℓ} (A : Type ℓ) : Type ℓ where
  ok : A → Run A
  fault : Run A
  out_of_fuel : Run A

infixl 5 ◌>>=◌
abbrev pub ◌>>=◌ {ℓ κ} : {A : Type ℓ} {B : Type κ} → Run A → (A → Run B) → Run B
ok a >>= f = f a
fault >>= f = fault
out_of_fuel >>= f = out_of_fuel

abbrev pub Ptr : Type 0
Ptr = ℕ

abbrev pub null : Ptr
null = 0

pub record Node {ℓ} (A : Type ℓ) : Type ℓ where
  pub value : A
  pub next : Ptr

-- The nodes of one type, by their addresses.
abbrev pub Store {ℓ} : Type ℓ → Type ℓ
Store A = Ptr → Option (Node A)

-- The two pointers to a list.
pub record Queue : Type 0 where
  pub head : Ptr
  pub tail : Ptr

abbrev pub no_nodes : Queue
no_nodes = record { head = null; tail = null }

module _ {ℓ} {A : Type ℓ} where
  abbrev pub node : A → Ptr → Node A
  node v q = record { value = v; next = q }

  unfoldable pub write : Store A → Ptr → Node A → Store A
  write h p n q = if q == p then some n else h q

  abbrev pub loaded : Option (Node A) → Run (Node A)
  loaded none = fault
  loaded (some n) = ok n

  unfoldable pub load : Store A → Ptr → Run (Node A)
  load h p = if p == null then fault else loaded (h p)

  -- `p->next = q`.
  unfoldable pub set_next : Store A → Ptr → Ptr → Run (Store A)
  unfolding load write
  set_next h p q = do n ← load h p; ok (write h p (node n.value q))

  unfoldable pub link_tail : Store A → Queue → Ptr → Run (Store A × Queue)
  link_tail h q p =
      if q.tail == null
      then ok (h, record { head = p; tail = p })
      else (do h' ← set_next h q.tail p; ok (h', record q { tail = p }))

  -- Behind the tail: `node->next = NULL`, then the tail's `next` and the tail, or both pointers.
  unfoldable pub append : Store A → Queue → Ptr → Run (Store A × Queue)
  append h q p = do h' ← set_next h p null; link_tail h' q p

  -- The first node from `p` on whose value passes the test; NULL if there is none.
  unfoldable pub find : ℕ → Store A → (A → Bool) → Ptr → Run Ptr
  find zero h test p = out_of_fuel
  find (suc fuel) h test p = if p == null then ok null else (do
    n ← load h p
    let rest = find fuel h test n.next
    if test n.value then ok p else rest)

-- A run that is to stay within the arrays.
abbrev pub within : {A : Type 0} → Bool → Run A → Run A
within true r = r
within false r = fault
