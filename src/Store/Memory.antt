-- ===== src/Store/Memory.antt =====
-- memoryStore of packages/fcc-extension/go/internal/extension/state_store.go.
use averlock.Prelude.{
  ◌≡◌, ◌≢◌, Bool, true, ◌||◌, not, Option, none, some, [], arith, ◌==◌, if◌then◌else◌, Map, lookup,
  insert, lookup-insert, Result, ok, err, inl, inr, Option-cases, Bool-cases, ◌⊎◌, ap,
}
use averlock.Ethereum.{Hash}
use averlock.Policy.{PolicyState}
use averlock.Store.{
  Ptr, Heap, deref, StoreError, state_missing, zero_rule, invalid_state, StateStore, IsStore,
  IsKeeper,
}

-- the field `values`
abbrev pub MemoryStore : Type 0
MemoryStore = Map Ptr

-- newMemoryStore
abbrev pub new_memory_store : MemoryStore
new_memory_store = []

found : Option Ptr → Result StoreError Ptr
found none = err state_missing
found (some p) = ok p

-- Load
unfoldable pub load : Hash → Heap → MemoryStore → Result StoreError Ptr × Heap × MemoryStore
unfolding found
load r heap values = (if r == 0 then err zero_rule else found (lookup r values), heap, values)

-- `v == nil || v.Policy.RuleID != r`, where a dangling pointer stands for nil
unfoldable pub unbound : Hash → Option PolicyState → Bool
unbound r none = true
unbound r (some v) = not (v.policy.rule_id == r)

-- Save
unfoldable pub save : Hash → Ptr → Heap → MemoryStore → Result StoreError (Unit {0}) × MemoryStore
unfolding unbound
save r p heap values =
    if r == 0 || unbound r (deref heap p)
    then (err invalid_state, values)
    else (ok tt, insert r p values)

abbrev pub memory_store : StateStore MemoryStore
memory_store = record { load = load; save = save }

-- Save refuses, and changes nothing, or it binds the rule to an object with that rule's state.
pub save_cases :
    (r : Hash) (p : Ptr) (h : Heap) (s : MemoryStore)
    → (((save r p h s).0 ≡ err invalid_state) × ((save r p h s).1 ≡ s))
      ⊎ (((save r p h s).0 ≡ ok tt)
          × ((save r p h s).1 ≡ insert r p s)
          × ((v : PolicyState) × (deref h p ≡ some v) × (v.policy.rule_id ≡ r)))
unfolding save
save_cases r p h s = elim (Option-cases (deref h p)) [
  | inl dangling ↦ inl (ground arith, ground arith)
  | inr (v, found) ↦ elim (Bool-cases (r == 0 || not (v.policy.rule_id == r))) [
    | inl bad ↦ inl (ground arith, ground arith)
    | inr good ↦ inr (ground arith, ground arith, (v, found, ground arith))
  ]
]

module _ (P : PolicyState → Type 0) where
  -- Every rule is kept under its own ID, as an object of the heap with the property.
  abbrev pub AllKept : Heap → MemoryStore → Type 0
  AllKept heap values =
      (r : Hash) (p : Ptr)
      → lookup r values ≡ some p
      → (v : PolicyState) × (deref heap p ≡ some v) × (v.policy.rule_id ≡ r) × P v

  pub load_kept :
      (r : Hash) (h : Heap) (s : MemoryStore) (p : Ptr)
      → AllKept h s
      → (load r h s).0 ≡ ok p
      → (v : PolicyState) × (deref h p ≡ some v) × (v.policy.rule_id ≡ r) × P v
  unfolding load
  load_kept r h s p good e = good r p (ground arith)

  pub save_good :
      (r : Hash) (p : Ptr) (h : Heap) (s : MemoryStore) (v : PolicyState)
      → AllKept h s
      → deref h p ≡ some v
      → P v
      → AllKept h (save r p h s).1
  save_good r p h s v good at holds k q e = elim (save_cases r p h s) [
    | inl (_, same) ↦ good k q (cc (ap (lookup k) same))
    | inr (_, put, (w, found, bound)) ↦
        let look = lookup-insert r k p s in
        let moved = ap (lookup k) put in
        elim (Bool-cases (k == r)) [
          | inl own ↦ (v, ground (arith, moved, look), ground (arith, moved, look), holds)
          | inr other ↦ good k q (ground (arith, moved, look))
        ]
  ]

-- Load of the memory store changes nothing.
pub memory_store-IsStore : IsStore memory_store
unfolding load
memory_store-IsStore = record { load_grows = λ r h s p v e. e }

-- The memory store keeps every property of states: it holds each under its own rule alone.
unfoldable pub memory_store-IsKeeper : (P : PolicyState → Type 0) → IsKeeper memory_store P
unfolding load
memory_store-IsKeeper P = record {
  Good = AllKept P;
  good_grows = λ h h' s g good r p e. let (v, d, b, k) = good r p e in (v, g p v d, b, k);
  load_good = λ r h s good. good;
  load_kept = load_kept P;
  save_good = save_good P;
}

-- A new store holds nothing.
pub new_memory_store-Good : (P : PolicyState → Type 0) → (memory_store-IsKeeper P).Good [] []
unfolding memory_store-IsKeeper
new_memory_store-Good P r p e = absurd (unfold lookup in cc e)

-- Load of the memory store after a successful Save of a rule hands out the very object that was
-- saved, whatever the heap has become.
load-save :
    (r : Hash) (p : Ptr) (h h' : Heap) (s : MemoryStore)
    → (save r p h s).0 ≡ ok tt
    → (load r h' (save r p h s).1).0 ≡ ok p
unfolding load save
load-save r p h h' s e = ground (arith, lookup-insert r r p s)

-- A Save of one rule, failed or not, does not change what Load of another rule returns.
load-save_ne :
    (r k : Hash) (p : Ptr) (h h' : Heap) (s : MemoryStore)
    → r ≢ k
    → (load k h' (save r p h s).1).0 ≡ (load k h' s).0
unfolding load save
load-save_ne r k p h h' s ne = ground (arith, lookup-insert r k p s)
