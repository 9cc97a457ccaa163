-- ===== src/Store.antt =====
-- The stateStore interface of packages/fcc-extension/go/internal/extension/state_store.go. Go passes
-- `*policyState`: a heap holds the states, and a store hands out and keeps pointers into it.
pub mod Memory
pub mod Resp
pub mod Redis
pub mod Config
use averlock.Prelude.{
  ℕ, ◌+◌, ◌≤◌, ◌<◌, ◌≡◌, Option, some, List, [], ◌∷◌, ◌++◌, length, get_elem?, Result, ok, Bytes,
}
use averlock.Ethereum.{Hash}
use averlock.Policy.{PolicyState}

abbrev pub Ptr : Type 0
Ptr = ℕ

abbrev pub Heap : Type 0
Heap = List PolicyState

-- `*p`
abbrev pub deref : Heap → Ptr → Option PolicyState
deref = get_elem?

-- `&v`, a new object
abbrev pub alloc : PolicyState → Heap → Ptr × Heap
alloc v heap = (length heap, heap ++ v ∷ [])

pub data StoreError : Type 0 where
  -- errStateMissing
  state_missing : StoreError
  zero_rule : StoreError
  invalid_state : StoreError
  gob_failed : StoreError
  rand_failed : StoreError
  connection_failed : StoreError
  command_failed : StoreError
  invalid_response : StoreError
  bad_bulk_length : StoreError
  -- make panics at the length of a reply
  make_panics : StoreError
  invalid_envelope : StoreError
  authentication_failed : StoreError
  undecodable_state : StoreError
  binding_mismatch : StoreError

-- A store with state `S`. Load may allocate; Save reads the heap.
pub record StateStore (S : Type 0) : Type 0 where
  pub load : Hash → Heap → S → Result StoreError Ptr × Heap × S
  pub save : Hash → Ptr → Heap → S → Result StoreError (Unit {0}) × S

-- `h'` has every object of `h` as it was, and perhaps more.
abbrev pub Grows : Heap → Heap → Type 0
Grows h h' = (p : Ptr) (v : PolicyState) → deref h p ≡ some v → deref h' p ≡ some v

-- Load leaves the existing objects alone.
pub record IsStore {S : Type 0} (store : StateStore S) : Type 0 where
  pub load_grows : (r : Hash) (h : Heap) (s : S) → Grows h (store.load r h s).1

-- A store that keeps a property of states: while all that is saved has it, and is saved under its own
-- rule, all that Load hands out has it and is of the rule that was asked for. `Good` says which
-- states of the store are meant.
pub record IsKeeper {S : Type 0} (store : StateStore S) (P : PolicyState → Type 0) : Type 1 where
  pub Good : Heap → S → Type 0
  pub good_grows : (h h' : Heap) (s : S) → Grows h h' → Good h s → Good h' s
  pub load_good :
      (r : Hash) (h : Heap) (s : S) → Good h s → Good (store.load r h s).1 (store.load r h s).2
  pub load_kept :
      (r : Hash) (h : Heap) (s : S) (p : Ptr)
      → Good h s
      → (store.load r h s).0 ≡ ok p
      → (v : PolicyState) × (deref (store.load r h s).1 p ≡ some v) × (v.policy.rule_id ≡ r) × P v
  pub save_good :
      (r : Hash) (p : Ptr) (h : Heap) (s : S) (v : PolicyState)
      → Good h s
      → deref h p ≡ some v
      → P v
      → Good h (store.save r p h s).1
