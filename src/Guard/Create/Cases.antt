-- ===== src/Guard/Create/Cases.antt =====
-- The outcomes of adding a policy, with the state that each leaves.
use averlock.Prelude.{
  ◌≡◌, true, none, some, [], ◌∷◌, ◌++◌, ◌<◌, Bytes, arith, Result, ok, err, length, lookup, insert,
  inl, inr, ◌⊎◌, Option-cases, Result-cases, is_some,
}
use averlock.Ethereum.{Hash, Geth}
use averlock.Policy.{Policy, NormalizedPolicy, normalize_policy, policy_commitment}
use averlock.Store.{Ptr, Heap, StoreError, StateStore, state_missing}
use averlock.Guard.State.{
  Failure, Extension, CreatePolicyRequest, decode_strict, persisting_policy, rule_exists, Json,
  Calls, Action, DataFixed, respond,
}
use averlock.Guard.Create.{
  new_policy_state, load_conflict, save_policy, add_policy, create_request, created,
  process_create_policy,
}

missing : (r : Result StoreError Ptr) → load_conflict r ≡ none → r ≡ err state_missing
unfolding load_conflict
missing r h = ground arith

-- What an accepted creation has found: the request holds the ciphertext of a policy text that is
-- valid and not expired.
pub create_request_lem :
    (g : Geth) (json : Json) (calls : Calls) (df : DataFixed) (policy : NormalizedPolicy)
    (commitment : Hash)
    → create_request g json calls df ≡ ok (policy, commitment)
    → (request : CreatePolicyRequest) × (plaintext : Bytes) × (wire : Policy) × (decode_strict
          json.create_policy json.at_eof df.original_message
        ≡ ok request)
      × (calls.decrypt request.encrypted_policy ≡ some plaintext)
      × (decode_strict json.policy json.at_eof plaintext ≡ ok wire)
      × (normalize_policy wire ≡ ok policy)
      × (0 < df.timestamp → df.timestamp < policy.expires_at)
      × (policy_commitment g policy ≡ some commitment)
unfolding create_request
create_request_lem g json calls df policy commitment h = ground arith

module _ {S : Type 0} (store : StateStore S) where
  pub save_policy_cases :
      (rule : Hash) (p : Ptr) (h : Heap) (s : S) (e : Extension S)
      → ((x : StoreError) × ((store.save rule p h s).0 ≡ err x)
          × (save_policy store rule p h s e ≡ (
            err (persisting_policy x),
            record e { heap = h; store = (store.save rule p h s).1 },
          )))
        ⊎ (((store.save rule p h s).0 ≡ ok tt)
            × (save_policy store rule p h s e ≡ (
              ok tt,
              record e {
                policies = insert rule p e.policies;
                heap = h;
                store = (store.save rule p h s).1;
              },
            )))
  unfolding save_policy
  save_policy_cases rule p h s e = elim (Result-cases (store.save rule p h s).0) [
    | inl (done, saved) ↦ inr (saved, ground arith)
    | inr (x, failed) ↦ inl (x, failed, ground arith)
  ]

  module _ (policy : NormalizedPolicy) (commitment : Hash) (e : Extension S) where
    -- what Load says, once the new state has been allocated
    abbrev pub existing : Result StoreError Ptr × Heap × S
    existing = store.load policy.rule_id (e.heap ++ new_policy_state policy commitment ∷ []) e.store

    -- The rule is in memory, or Load gives a reason to refuse, or the policy is saved.
    pub add_policy_cases :
        ((is_some (lookup policy.rule_id e.policies) ≡ true)
          × (add_policy store policy commitment e ≡ (err rule_exists, e)))
        ⊎ ((lookup policy.rule_id e.policies ≡ none)
            × (((x : Failure) × (load_conflict existing.0 ≡ some x)
                  × (add_policy store policy commitment e
                      ≡ (err x, record e { heap = existing.1; store = existing.2 })))
                ⊎ ((existing.0 ≡ err state_missing)
                    × (add_policy store policy commitment e
                        ≡ save_policy store policy.rule_id
                            (length e.heap)
                            existing.1
                            existing.2
                            e))))
    unfolding add_policy
    add_policy_cases = elim (Option-cases (lookup policy.rule_id e.policies)) [
      | inr (p, there) ↦ inl (ground arith, ground arith)
      | inl absent ↦ inr (
        absent,
        elim (Option-cases (load_conflict existing.0)) [
          | inr (x, refused) ↦ inl (x, refused, ground arith)
          | inl clear ↦ inr (missing existing.0 clear, ground arith)
        ],
      )
    ]

  module _ (g : Geth) (json : Json) (calls : Calls) (action : Action) (df : DataFixed)
      (e : Extension S) where
    pub process_create_refused :
        {x : Failure}
        → create_request g json calls df ≡ err x
        → process_create_policy store g json calls action df e ≡ (respond action df (err x), e)
    unfolding process_create_policy
    process_create_refused refused = ground arith

    pub process_create_accepted :
        {policy : NormalizedPolicy} {commitment : Hash}
        → create_request g json calls df ≡ ok (policy, commitment)
        → process_create_policy store g json calls action df e ≡ (
          respond action df
              (created json policy commitment (add_policy store policy commitment e).0),
          (add_policy store policy commitment e).1,
        )
    unfolding process_create_policy
    process_create_accepted accepted = ground arith
