-- ===== src/Guard/Sound/Invariant.antt =====
-- The invariant of a server's state: policies in memory are bound to objects under their own rule,
-- and they and what the store holds are sound.
use averlock.Prelude.{
  ◌≡◌, sym, some, arith, insert, lookup-insert, Bool-cases, inl, inr, ◌==◌, ==_iff, Map, ◌∙◌,
}
use averlock.Ethereum.{Hash}
use averlock.Policy.{PolicyState}
use averlock.Store.{Ptr, Heap, deref, StateStore, Grows, IsStore, IsKeeper}
use averlock.Store.Memory.{AllKept}
use averlock.Guard.State.{Extension}
use averlock.Guard.Sound.{IsSound}

pub AllKept-Grows :
    (P : PolicyState → Type 0) (h h' : Heap) (ps : Map Ptr)
    → Grows h h'
    → AllKept P h ps
    → AllKept P h' ps
AllKept-Grows P h h' ps grows kept r p e =
    let (v, at, own, holds) = kept r p e in (v, grows p v at, own, holds)

pub AllKept-insert :
    (P : PolicyState → Type 0) (h : Heap) (ps : Map Ptr) (k : Hash) (q : Ptr) (w : PolicyState)
    → AllKept P h ps
    → deref h q ≡ some w
    → w.policy.rule_id ≡ k
    → P w
    → AllKept P h (insert k q ps)
AllKept-insert P h ps k q w kept at own holds r p e =
    let put = lookup-insert k r q ps in
    elim (Bool-cases (r == k)) [
      | inl this ↦ (w, ground (arith, put, at), own ∙ sym ((==_iff r k).0 this), holds)
      | inr other ↦ kept r p (ground (arith, put))
    ]

module _ {S : Type 0} {store : StateStore S} (keeper : IsKeeper store IsSound) where
  pub record Invariant (e : Extension S) : Type 0 where
    pub memory : AllKept IsSound e.heap e.policies
    pub kept : keeper.Good e.heap e.store

  -- the objects that the heap has gained change nothing
  pub Invariant-Grows :
      (e : Extension S) (h : Heap)
      → Grows e.heap h
      → Invariant e
      → Invariant (record e { heap = h })
  Invariant-Grows e h grows inv = record {
    memory = AllKept-Grows IsSound e.heap h e.policies grows inv.memory;
    kept = keeper.good_grows e.heap h e.store grows inv.kept;
  }

  -- what Load leaves, over a larger heap
  pub Invariant-load :
      IsStore store
      → (rule : Hash) (e : Extension S) → Invariant e
      → let out = store.load rule e.heap e.store in
        Invariant (record e { heap = out.1; store = out.2 })
  Invariant-load law rule e inv = record {
    memory =
        AllKept-Grows IsSound e.heap _ e.policies (law.load_grows rule e.heap e.store) inv.memory;
    kept = keeper.load_good rule e.heap e.store inv.kept;
  }

  -- what Save leaves of a sound object
  pub Invariant-save :
      (rule : Hash) (p : Ptr) (v : PolicyState) (e : Extension S)
      → deref e.heap p ≡ some v
      → IsSound v
      → Invariant e
      → Invariant (record e { store = (store.save rule p e.heap e.store).1 })
  Invariant-save rule p v e at sound inv = record {
    memory = inv.memory;
    kept = keeper.save_good rule p e.heap e.store v inv.kept at sound;
  }

  -- a sound object under its rule
  pub Invariant-insert :
      (rule : Hash) (p : Ptr) (v : PolicyState) (e : Extension S)
      → deref e.heap p ≡ some v
      → v.policy.rule_id ≡ rule
      → IsSound v
      → Invariant e
      → Invariant (record e { policies = insert rule p e.policies })
  Invariant-insert rule p v e at own sound inv = record {
    memory = AllKept-insert IsSound e.heap e.policies rule p v inv.memory at own sound;
    kept = inv.kept;
  }
