-- ===== src/Guard/Ledger/Creation.antt =====
-- The creation of a policy by the server with the memory store, beside the ledger.
use averlock.Prelude.{
  ◌≡◌, ◌≢◌, refl, none, some, [], ◌∷◌, ◌++◌, arith, ok, err, length, lookup, insert, inl, inr,
  Option-cases,
}
use averlock.Ethereum.{Hash}
use averlock.Policy.{PolicyState, NormalizedPolicy}
use averlock.Store.{state_missing}
use averlock.Store.Memory.{MemoryStore, memory_store, load}
use averlock.Guard.State.{Extension, rule_exists}
use averlock.Guard.Create.{add_policy, save_policy, load_conflict, new_policy_state}
use averlock.Guard.Create.Cases.{add_policy_cases, existing}
use averlock.Guard.Ledger.{Ledger, update, enter}
use averlock.Guard.Ledger.Steps.{Shows, Shows-insert, Agrees, save_new}

module _ (policy : NormalizedPolicy) (commitment : Hash) (nonzero : policy.rule_id ≢ 0)
    (ledger : Ledger) (e : Extension MemoryStore) (shows : Shows ledger e) where
  enter_known :
      (v : PolicyState)
      → ledger policy.rule_id ≡ some v
      → enter policy commitment ledger ≡ (err rule_exists, ledger)
  unfolding enter
  enter_known v known = ground (arith, known)

  enter_new :
      ledger policy.rule_id ≡ none
      → enter policy commitment ledger
        ≡ (ok tt, update policy.rule_id (new_policy_state policy commitment) ledger)
  unfolding enter
  enter_new unknown = ground (arith, unknown)

  -- Load of a rule that is not in memory.
  load_missing :
      lookup policy.rule_id e.policies ≡ none
      → existing memory_store policy commitment e
        ≡ (err state_missing, e.heap ++ new_policy_state policy commitment ∷ [], e.store)
  unfolding load
  load_missing absent = ground (arith, absent, shows.stored policy.rule_id, nonzero)

  -- The new state is saved and bound.
  save_entered :
      let w = new_policy_state policy commitment in
      save_policy memory_store policy.rule_id (length e.heap) (e.heap ++ w ∷ []) e.store e ≡ (
        ok tt,
        record e {
          policies = insert policy.rule_id (length e.heap) e.policies;
          heap = e.heap ++ w ∷ [];
          store = insert policy.rule_id (length e.heap) e.store;
        },
      )
  unfolding save_policy
  save_entered = ground (
    arith,
    save_new policy.rule_id e.heap (new_policy_state policy commitment) e.store nonzero refl,
  )

  -- A creation of the server is the ledger's.
  pub add_policy-enter :
      Agrees (enter policy commitment ledger) (add_policy memory_store policy commitment e)
  add_policy-enter =
      let w = new_policy_state policy commitment in
      elim (Option-cases (lookup policy.rule_id e.policies)) [
        | inr (p, there) ↦
            let (v, at, _, _) = shows.kept policy.rule_id p there in
            let known : ledger policy.rule_id ≡ some v =
              ground (arith, shows.entries policy.rule_id, there, at) in
            elim (add_policy_cases memory_store policy commitment e) [
              | inl (_, is) ↦ rw (is, enter_known v known) (refl, shows)
              | inr (absent, _) ↦ absurd (ground (arith, there, absent))
            ]
        | inl absent ↦
            let unknown : ledger policy.rule_id ≡ none =
              ground (arith, shows.entries policy.rule_id, absent) in
            let loaded = load_missing absent in
            elim (add_policy_cases memory_store policy commitment e) [
              | inl (there, is) ↦ absurd (ground (arith, there, absent))
              | inr (_, inl (x, refused, is)) ↦
                  absurd (unfold load_conflict in ground (arith, refused, loaded))
              | inr (_, inr (_, is)) ↦
                  rw (is, enter_new unknown, loaded, save_entered)
                    (refl, Shows-insert ledger e policy.rule_id w _ _ refl shows)
            ]
      ]
