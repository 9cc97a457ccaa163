-- ===== src/Guard/History/Memory.antt =====
-- The policies in memory through one action: maps, heaps and the three ways they change.
use averlock.Prelude.{
  zero, suc, ◌<◌, ◌≡◌, Option, none, some, [], ◌∷◌, ◌++◌, arith, lookup, insert, lookup-insert,
  length, get_elem?, get_elem?-append, get_elem?-append_last, Map, ◌==◌, ==_iff, Bool-cases,
  Option-cases, inl, inr, ◌∙◌,
}
use averlock.Ethereum.{Hash}
use averlock.Policy.{PolicyState}
use averlock.Store.{Ptr, Heap, deref, Grows}
use averlock.Guard.State.{Extension}
use averlock.Guard.History.Evolves.{Evolves, Evolves-refl, Evolves-trans}

-- the state of a policy in memory
abbrev pub view : Hash → Map Ptr → Heap → Option PolicyState
view rule policies heap = elim (lookup rule policies) [ none ↦ none | some p ↦ deref heap p ]

-- Every policy in memory before is in memory after, and has evolved.
abbrev pub KeepsView : Map Ptr → Heap → Map Ptr → Heap → Type 0
KeepsView ps h ps' h' =
    (rule : Hash) (v : PolicyState)
    → view rule ps h ≡ some v
    → (w : PolicyState) × (view rule ps' h' ≡ some w) × Evolves v w

module _ {S : Type 0} where
  abbrev pub state_at : Hash → Extension S → Option PolicyState
  state_at rule e = view rule e.policies e.heap

  abbrev pub Keeps : Extension S → Extension S → Type 0
  Keeps e e' = KeepsView e.policies e.heap e'.policies e'.heap

  pub Keeps-trans : (d e f : Extension S) → Keeps d e → Keeps e f → Keeps d f
  Keeps-trans d e f p q rule u found =
      let (v, found', uv) = p rule u found in
      let (w, found'', vw) = q rule v found' in (w, found'', Evolves-trans u v w uv vw)

pub Grows-append : (h : Heap) (v : PolicyState) → Grows h (h ++ v ∷ [])
Grows-append h v p w found = get_elem?-append h (v ∷ []) p (bound h p found) ∙ found
  where
    bound : (xs : Heap) (i : Ptr) → get_elem? xs i ≡ some w → i < length xs
    bound [] i e = cc
    bound (x ∷ xs) zero e = omega arith
    bound (x ∷ xs) (suc i) e = omega (arith, bound xs i e)

pub Grows-trans : (h h' h'' : Heap) → Grows h h' → Grows h' h'' → Grows h h''
Grows-trans h h' h'' p q i v found = q i v (p i v found)

-- the object of a policy in memory
pub view_ptr :
    (rule : Hash) (ps : Map Ptr) (h : Heap) (v : PolicyState)
    → view rule ps h ≡ some v
    → (p : Ptr) × (lookup rule ps ≡ some p) × (deref h p ≡ some v)
view_ptr rule ps h v found = elim (Option-cases (lookup rule ps)) [
  | inl none_there ↦ absurd (ground arith)
  | inr (p, there) ↦ (p, there, ground arith)
]

-- Only new objects.
pub KeepsView-Grows : (ps : Map Ptr) (h h' : Heap) → Grows h h' → KeepsView ps h ps h'
KeepsView-Grows ps h h' grows rule v found =
    let (p, there, at) = view_ptr rule ps h v found in
    (v, ground (arith, grows p v at), Evolves-refl v)

-- A policy that was not in memory is added.
pub KeepsView-adopt :
    (ps : Map Ptr) (h h' : Heap) (k : Hash) (q : Ptr)
    → lookup k ps ≡ none
    → Grows h h'
    → KeepsView ps h (insert k q ps) h'
KeepsView-adopt ps h h' k q new grows rule v found =
    let (p, there, at) = view_ptr rule ps h v found in
    (v, ground (arith, grows p v at, lookup-insert k rule q ps), Evolves-refl v)

-- A policy is bound to a new object with a state that has evolved from its own.
pub KeepsView-replace :
    (ps : Map Ptr) (h : Heap) (k : Hash) (w : PolicyState)
    → ((v : PolicyState) → view k ps h ≡ some v → Evolves v w)
    → KeepsView ps h (insert k (length h) ps) (h ++ w ∷ [])
KeepsView-replace ps h k w evolved rule v found =
    let (p, there, at) = view_ptr rule ps h v found in
    let last = get_elem?-append_last h w in
    let put = lookup-insert k rule (length h) ps in
    elim (Bool-cases (rule == k)) [
      | inl this ↦ (w, ground (arith, put, last), evolved v (rw (← (==_iff rule k).0 this) found))
      | inr other ↦ (v, ground (arith, put, Grows-append h w p v at), Evolves-refl v)
    ]
