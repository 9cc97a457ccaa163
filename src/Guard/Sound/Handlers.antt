-- ===== src/Guard/Sound/Handlers.antt =====
-- The invariant through processCreatePolicy and processEvaluateGuard.
use averlock.Prelude.{
  ℕ, ◌≡◌, refl, some, [], ◌∷◌, ◌++◌, ok, err, length, lookup, get_elem?-append_last, inl, inr, ◌⊎◌,
  ◌∙◌, ap,
}
use averlock.Ethereum.{Hash, Geth}
use averlock.Policy.{PolicyState, NormalizedPolicy}
use averlock.Policy.Normalize.{IsValid}
use averlock.Store.{Ptr, deref, StateStore, IsStore, IsKeeper}
use averlock.Guard.State.{EvaluateGuardRequest, Gob, IsGob, Failure, Calls, Extension}
use averlock.Guard.Evaluate.{evaluate_at, evaluate_guard, find_state, record_evaluation}
use averlock.Guard.Evaluate.Cases.{
  adopted, loaded, find_state_cases, evaluate_at_cases, evaluate_guard_found,
  evaluate_guard_missing,
}
use averlock.Guard.Create.{add_policy, save_policy, new_policy_state}
use averlock.Guard.Create.Cases.{save_policy_cases, existing, add_policy_cases}
use averlock.Guard.History.Memory.{Grows-append}
use averlock.Guard.Sound.{IsSound, AreTyped, evaluate_state-IsSound}
use averlock.Guard.Sound.Invariant.{
  Invariant, Invariant-Grows, Invariant-load, Invariant-save, Invariant-insert,
}

module _ {S : Type 0} {store : StateStore S} (law : IsStore store)
    (keeper : IsKeeper store IsSound) where
  -- what a found policy is
  record IsFound (rule : Hash) (p : Ptr) (e : Extension S) : Type 0 where
    pub sound : Invariant keeper e
    pub state : PolicyState
    pub at : deref e.heap p ≡ some state
    pub own : state.policy.rule_id ≡ rule
    pub good : IsSound state

  adopted-IsFound :
      (rule : Hash) (e : Extension S) (p : Ptr)
      → Invariant keeper e
      → (loaded store rule e).0 ≡ ok p
      → IsFound rule p (adopted store rule e p)
  adopted-IsFound rule e p inv got =
      let (v, at, own, good) = keeper.load_kept rule e.heap e.store p inv.kept got in
      record {
        sound =
            Invariant-insert keeper rule p v
              (record e { heap = (loaded store rule e).1; store = (loaded store rule e).2 }) at own
              good (Invariant-load keeper law rule e inv);
        state = v;
        at = at;
        own = own;
        good = good;
      }

  -- A found policy is sound, and so is what finding it leaves.
  find_state-IsFound :
      (rule : Hash) (e : Extension S)
      → Invariant keeper e
      → ((p : Ptr) × (e' : Extension S) × (find_state store rule e ≡ (ok p, e'))
          × IsFound rule p e')
        ⊎ ((x : Failure) × (e' : Extension S) × (find_state store rule e ≡ (err x, e'))
            × Invariant keeper e')
  find_state-IsFound rule e inv = elim (find_state_cases store rule e) [
    | inl (p, there, is) ↦
        let (v, at, own, good) = inv.memory rule p there in
        inl (p, e, is, record { sound = inv; state = v; at = at; own = own; good = good })
    | inr (absent, inl (p, got, is)) ↦
        inl (p, adopted store rule e p, is, adopted-IsFound rule e p inv got)
    | inr (absent, inr (x, failed, is)) ↦ inr (_, _, is, Invariant-load keeper law rule e inv)
  ]

  module _ (g : Geth) (gob : Gob) (laws : IsGob gob) (calls : Calls) (typed : AreTyped calls) where
    -- the saved object
    saved_Invariant :
        (r : EvaluateGuardRequest) (w : PolicyState) (e : Extension S)
        → IsSound w
        → Invariant keeper e
        → let h = e.heap ++ w ∷ [] in
          Invariant keeper
            (record e { heap = h; store = (store.save r.rule_id (length e.heap) h e.store).1 })
    saved_Invariant r w e good inv =
        Invariant-save keeper r.rule_id (length e.heap) w (record e { heap = e.heap ++ w ∷ [] })
          (get_elem?-append_last e.heap w) good
          (Invariant-Grows keeper e (e.heap ++ w ∷ []) (Grows-append e.heap w) inv)

    evaluate_at-Invariant :
        (r : EvaluateGuardRequest) (timestamp : ℕ) (p : Ptr) (e : Extension S)
        → IsFound r.rule_id p e
        → Invariant keeper (evaluate_at g store gob calls r timestamp p e).1
    unfolding record_evaluation
    evaluate_at-Invariant r timestamp p e found =
        let v = found.state in
        let inv = found.sound in
        elim (evaluate_at_cases g store gob laws calls r timestamp p e v found.at) [
          | inl (x, _, is) ↦
              rw is (Invariant-Grows keeper e (e.heap ++ v ∷ []) (Grows-append e.heap v) inv)
          | inr (ev, passed, inl (x, _, is)) ↦
              let good = evaluate_state-IsSound calls v r timestamp ev typed found.good passed in
              rw is (saved_Invariant r ev.state e good.state inv)
          | inr (ev, passed, inr (_, is)) ↦
              let good = evaluate_state-IsSound calls v r timestamp ev typed found.good passed in
              let kept =
                Invariant-insert keeper r.rule_id (length e.heap) ev.state _
                  (get_elem?-append_last e.heap ev.state)
                  (ap (λ q. q.rule_id) good.same_policy ∙ found.own) good.state
                  (saved_Invariant r ev.state e good.state inv) in
              rw is (record { memory = kept.memory; kept = kept.kept })
        ]

    pub evaluate_guard-Invariant :
        (r : EvaluateGuardRequest) (timestamp : ℕ) (e : Extension S)
        → Invariant keeper e
        → Invariant keeper (evaluate_guard g store gob calls r timestamp e).1
    evaluate_guard-Invariant r timestamp e inv = elim (find_state-IsFound r.rule_id e inv) [
      | inl (p, e', is, found) ↦
          rw (evaluate_guard_found g store gob laws calls r timestamp e is)
            (evaluate_at-Invariant r timestamp p e' found)
      | inr (x, e', is, inv') ↦
          rw (evaluate_guard_missing g store gob laws calls r timestamp e is) inv'
    ]

  module _ (policy : NormalizedPolicy) (commitment : Hash) (valid : IsValid policy)
      (e : Extension S) (inv : Invariant keeper e) where
    new_IsSound : IsSound (new_policy_state policy commitment)
    new_IsSound = record {
      valid = valid;
      decided = λ h a found. absurd (unfold lookup in cc found);
    }

    -- what Load leaves, with the new object still there
    existing-Invariant : Invariant keeper (record e {
      heap = (existing store policy commitment e).1;
      store = (existing store policy commitment e).2;
    })
    existing-Invariant =
        let v = new_policy_state policy commitment in
        let h = e.heap ++ v ∷ [] in
        Invariant-load keeper law policy.rule_id (record e { heap = h })
          (Invariant-Grows keeper e h (Grows-append e.heap v) inv)

    new_at :
        deref (existing store policy commitment e).1 (length e.heap)
        ≡ some (new_policy_state policy commitment)
    new_at =
        let v = new_policy_state policy commitment in
        law.load_grows policy.rule_id (e.heap ++ v ∷ []) e.store (length e.heap) v
          (get_elem?-append_last e.heap v)

    save_policy-Invariant :
        let x = existing store policy commitment e in
        Invariant keeper (save_policy store policy.rule_id (length e.heap) x.1 x.2 e).1
    save_policy-Invariant =
        let x = existing store policy commitment e in
        let d = record e { heap = x.1; store = x.2 } in
        let v = new_policy_state policy commitment in
        let inv' =
          Invariant-save keeper policy.rule_id (length e.heap) v d new_at new_IsSound
            existing-Invariant in
        elim (save_policy_cases store policy.rule_id (length e.heap) x.1 x.2 e) [
          | inl (y, failed, is) ↦ rw is inv'
          | inr (_, is) ↦ rw is (
              Invariant-insert keeper policy.rule_id (length e.heap) v _ new_at refl new_IsSound
                inv')
        ]

    pub add_policy-Invariant : Invariant keeper (add_policy store policy commitment e).1
    add_policy-Invariant = elim (add_policy_cases store policy commitment e) [
      | inl (_, is) ↦ rw is inv
      | inr (_, inl (x, _, is)) ↦ rw is existing-Invariant
      | inr (_, inr (_, is)) ↦ rw is save_policy-Invariant
    ]
