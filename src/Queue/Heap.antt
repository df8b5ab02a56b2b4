-- ===== src/Queue/Heap.antt =====
-- queue/queue_node.h: nodes at addresses, and the commands that read and write them.
use launch_core.Prelude.{ℕ, Option, none, some, ◌==◌, if◌then◌else◌}

abbrev pub Ptr : Type 0
Ptr = ℕ

abbrev pub null : Ptr
null = 0

-- struct Node<T>; `item` is its `data`.
pub record Node (T : Type 0) : Type 0 where
  pub prev : Ptr
  pub next : Ptr
  pub item : T

abbrev pub node : {T : Type 0} → Ptr → Ptr → T → Node T
node p n v = record { prev = p; next = n; item = v }

-- An address with no node, or `NULL`, is a fault when it is used.
abbrev pub Heap : Type 0 → Type 0
Heap T = Ptr → Option (Node T)

unfoldable pub write : {T : Type 0} → Heap T → Ptr → Node T → Heap T
write h p n a = if a == p then some n else h a

-- A command on the heap; `none` is a fault.
abbrev pub Cmd : Type 0 → Type 0 → Type 0
Cmd T A = Heap T → Option (A × Heap T)

module _ {T : Type 0} where
  abbrev pub pure : {A : Type 0} → A → Cmd T A
  pure a h = some (a, h)

  -- A fault ends the run.
  abbrev pub after : {A B : Type 0} → Option (A × Heap T) → (A → Cmd T B) → Option (B × Heap T)
  after none f = none
  after (some (a, h)) f = f a h

  infixl 5 ◌>>=◌ ◌>>◌
  abbrev pub ◌>>=◌ : {A B : Type 0} → Cmd T A → (A → Cmd T B) → Cmd T B
  m >>= f = λ h. after (m h) f

  abbrev pub ◌>>◌ : {A B : Type 0} → Cmd T A → Cmd T B → Cmd T B
  m >> k = m >>= λ _. k

  unfoldable pub load : Ptr → Cmd T (Node T)
  load p h = if p == null then none else elim (h p) [ none ↦ none | some n ↦ some (n, h) ]

  unfoldable pub store : Ptr → Node T → Cmd T (Unit {0})
  store p n h = some (tt, write h p n)

  -- p->prev = q
  unfoldable pub set_prev : Ptr → Ptr → Cmd T (Unit {0})
  unfolding store
  set_prev p q = do n ← load p; store p (record n { prev = q })

  -- p->next = q
  unfoldable pub set_next : Ptr → Ptr → Cmd T (Unit {0})
  unfolding store
  set_next p q = do n ← load p; store p (record n { next = q })

  -- p->data = v
  unfoldable pub set_item : Ptr → T → Cmd T (Unit {0})
  unfolding store
  set_item p v = do n ← load p; store p (record n { item = v })
