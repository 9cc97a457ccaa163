-- ===== src/Guard/Create.antt =====
-- processCreatePolicy of packages/fcc-extension/go/internal/extension/extension.go.
pub mod Cases
use averlock.Prelude.{
  is_empty, ℕ, ◌<◌, Bool, true, false, ◌&&◌, Option, none, some, [], ◌∷◌, Bytes, ltb, leb, ◌==◌,
  if◌then◌else◌, Result, ok, err, wrap, or_err, fail_if, ◌>>=◌, ◌>>◌, Map, lookup, insert, is_some,
}
use averlock.Ethereum.{Hash, Geth}
use averlock.Policy.{NormalizedPolicy, PolicyState, normalize_policy, policy_commitment}
use averlock.Store.{Ptr, Heap, alloc, StoreError, state_missing, StateStore}
use averlock.Guard.State.{
  CreatePolicyRequest, CreatePolicyResponse, Json, decode_strict, DataFixed, Action, Failure,
  decoding_create, empty_encrypted_policy, decrypting, decoding_policy, validating, not_in_future,
  encoding_commitment, rule_exists, loading_state, persisting_policy, ActionResult, Extension,
  Calls, respond,
}

module _ (g : Geth) where
  -- everything before the lock: the policy and its commitment
  unfoldable pub create_request :
      Json → Calls → DataFixed → Result Failure (NormalizedPolicy × Hash)
  unfolding decode_strict
  create_request json calls df = do
    request ←
        wrap decoding_create (decode_strict json.create_policy json.at_eof df.original_message)
    fail_if (is_empty request.encrypted_policy) empty_encrypted_policy
    plaintext ← or_err decrypting (calls.decrypt request.encrypted_policy)
    wire ← wrap decoding_policy (decode_strict json.policy json.at_eof plaintext)
    policy ← wrap validating (normalize_policy wire)
    fail_if (ltb 0 df.timestamp && leb policy.expires_at df.timestamp) not_in_future
    commitment ← or_err encoding_commitment (policy_commitment g policy)
    ok (policy, commitment)

-- a policy that has not been evaluated
abbrev pub new_policy_state : NormalizedPolicy → Hash → PolicyState
new_policy_state policy commitment = record {
  policy = policy;
  commitment = commitment;
  last_triggered = 0;
  authorizations = [];
  used_nonces = [];
}

-- what Load says of the rule: `none` if the policy may be created
unfoldable pub load_conflict : Result StoreError Ptr → Option Failure
load_conflict (ok _) = some rule_exists
load_conflict (err state_missing) = none
load_conflict (err e) = some (loading_state e)

-- the response of a created policy
abbrev pub created :
    Json → NormalizedPolicy → Hash → Result Failure (Unit {0}) → Result Failure Bytes
created json policy commitment (err x) = err x
created json policy commitment (ok _) = ok (
    json.marshal_created
      (record { rule_id = policy.rule_id; accepted = true; policy_commitment = commitment }))

module _ {S : Type 0} (store : StateStore S) where
  -- the last step under the lock
  unfoldable pub save_policy :
      Hash → Ptr → Heap → S → Extension S → Result Failure (Unit {0}) × Extension S
  save_policy rule p heap s e =
      let (saved, s') = store.save rule p heap s in
      elim saved [
        | err x ↦ (err (persisting_policy x), record e { heap = heap; store = s' })
        | ok _ ↦ (ok tt, record e { policies = insert rule p e.policies; heap = heap; store = s' })
      ]

  -- the part under the lock
  unfoldable pub add_policy :
      NormalizedPolicy → Hash → Extension S → Result Failure (Unit {0}) × Extension S
  add_policy policy commitment e =
      if is_some (lookup policy.rule_id e.policies)
      then (err rule_exists, e)
      else (let (p, heap) = alloc (new_policy_state policy commitment) e.heap in
          let (existing, heap', s) = store.load policy.rule_id heap e.store in
          elim (load_conflict existing) [
            | some x ↦ (err x, record e { heap = heap'; store = s })
            | none ↦ save_policy policy.rule_id p heap' s e
          ])

  -- processCreatePolicy
  unfoldable pub process_create_policy :
      Geth → Json → Calls → Action → DataFixed → Extension S → ActionResult × Extension S
  process_create_policy g json calls action df e = elim (create_request g json calls df) [
    | err x ↦ (respond action df (err x), e)
    | ok (policy, commitment) ↦
        let (added, e') = add_policy policy commitment e in
        (respond action df (created json policy commitment added), e')
  ]
