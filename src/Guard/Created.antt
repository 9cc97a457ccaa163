-- ===== src/Guard/Created.antt =====
-- What processCreatePolicy does to the policies in memory.
use averlock.Prelude.{
  ◌≡◌, refl, none, some, [], ◌∷◌, ◌++◌, arith, ok, err, length, lookup, lookup-insert_self,
  get_elem?-append_last, inl, inr, ◌⊎◌, Result-cases,
}
use averlock.Ethereum.{Hash, Geth}
use averlock.Policy.{NormalizedPolicy}
use averlock.Store.{deref, StateStore, Grows, IsStore, state_missing}
use averlock.Guard.State.{
  Json, Failure, Calls, Extension, Action, DataFixed, ActionResult, build_result,
}
use averlock.Guard.Create.{add_policy, new_policy_state, create_request, process_create_policy}
use averlock.Guard.Create.Cases.{
  save_policy_cases, existing, add_policy_cases, process_create_refused, process_create_accepted,
}
use averlock.Guard.History.Memory.{state_at, Grows-append, Grows-trans}
use averlock.Guard.Outcome.{Unchanged, SameView, SameView-Grows, SameView-adopt}

module _ {S : Type 0} (store : StateStore S) (law : IsStore store) where
  -- The policy is new to the memory and to the store, it is now in memory as it was requested, and
  -- no other policy and neither counter has changed.
  pub record IsCreated (policy : NormalizedPolicy) (commitment : Hash) (e e' : Extension S)
      : Type 0 where
    pub not_in_memory : lookup policy.rule_id e.policies ≡ none
    pub not_in_store : (existing store policy commitment e).0 ≡ err state_missing
    pub own : state_at policy.rule_id e' ≡ some (new_policy_state policy commitment)
    pub others : Unchanged e e'

  module _ (policy : NormalizedPolicy) (commitment : Hash) (e : Extension S) where
    pub grown : Grows e.heap (existing store policy commitment e).1
    grown =
        let v = new_policy_state policy commitment in
        Grows-trans e.heap (e.heap ++ v ∷ []) _ (Grows-append e.heap v)
          (law.load_grows policy.rule_id (e.heap ++ v ∷ []) e.store)

    pub still_there :
        deref (existing store policy commitment e).1 (length e.heap)
        ≡ some (new_policy_state policy commitment)
    still_there =
        let v = new_policy_state policy commitment in
        law.load_grows policy.rule_id (e.heap ++ v ∷ []) e.store (length e.heap) v
          (get_elem?-append_last e.heap v)

    unchanged :
        {e' : Extension S}
        → SameView e.policies e.heap e'.policies e'.heap
        → e'.evaluation_count ≡ e.evaluation_count
        → e'.successful_triggers ≡ e.successful_triggers
        → Unchanged e e'
    unchanged same evaluations triggers = record {
      same = same;
      evaluations = evaluations;
      triggers = triggers;
    }

    -- Adding a policy is refused and changes no policy in memory, or the policy is created.
    pub add_policy-IsCreated :
        ((x : Failure) × ((add_policy store policy commitment e).0 ≡ err x)
          × Unchanged e (add_policy store policy commitment e).1)
        ⊎ (((add_policy store policy commitment e).0 ≡ ok tt)
            × IsCreated policy commitment e (add_policy store policy commitment e).1)
    add_policy-IsCreated = elim (add_policy_cases store policy commitment e) [
      | inl (_, is) ↦ rw is (inl (_, refl, unchanged (λ rule v f. f) refl refl))
      | inr (absent, inl (x, _, is)) ↦
          rw is (inl (x, refl, unchanged (SameView-Grows e.policies e.heap _ grown) refl refl))
      | inr (absent, inr (fresh, is)) ↦
          rw is
            (elim (save_policy_cases store policy.rule_id (length e.heap)
              (existing store policy commitment e).1 (existing store policy commitment e).2 e) [
                | inl (x, _, out) ↦
                    rw out (
                      inl (_, refl, unchanged (SameView-Grows e.policies e.heap _ grown) refl refl))
                | inr (_, out) ↦ rw out (
                    inr (
                      refl,
                      record {
                        not_in_memory = absent;
                        not_in_store = fresh;
                        own = ground (
                          arith,
                          lookup-insert_self policy.rule_id (length e.heap) e.policies,
                          still_there,
                        );
                        others =
                            unchanged
                              (SameView-adopt e.policies e.heap _ policy.rule_id (length e.heap)
                                absent grown)
                              refl refl;
                      },
                    ))
              ])
    ]

  module _ (g : Geth) (json : Json) (calls : Calls) (action : Action) (df : DataFixed)
      (e : Extension S) where
    abbrev creating : ActionResult × Extension S
    creating = process_create_policy store g json calls action df e

    -- With a store whose Load leaves existing objects alone: a creation is answered with status 1
    -- for a well-formed request, whose policy was neither in memory nor in the store and now is in
    -- memory, not yet evaluated, or with status 0. No other policy in memory and neither counter
    -- changes in either case.
    pub process_create_policy-IsCreated :
        ((creating.0.status ≡ 0) × Unchanged e creating.1)
        ⊎ ((creating.0.status ≡ 1)
            × ((policy : NormalizedPolicy) × (commitment : Hash) × (create_request g json calls df
                  ≡ ok (policy, commitment))
                × IsCreated policy commitment e creating.1))
    unfolding build_result
    process_create_policy-IsCreated = elim (Result-cases (create_request g json calls df)) [
      | inr (x, refused) ↦
          rw (process_create_refused store g json calls action df e refused)
            (inl (refl, record { same = λ rule v f. f; evaluations = refl; triggers = refl }))
      | inl ((policy, commitment), accepted) ↦
          rw (process_create_accepted store g json calls action df e accepted)
            (elim (add_policy-IsCreated policy commitment e) [
              | inl (x, failed, same) ↦ rw failed (inl (refl, same))
              | inr (done, is) ↦ rw done (inr (refl, (policy, commitment, accepted, is)))
            ])
    ]
