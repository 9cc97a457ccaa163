-- ===== src/Guard/Evaluate.antt =====
-- processEvaluateGuard of packages/fcc-extension/go/internal/extension/extension.go, in parts that
-- run one after the other: finding the state, deciding on a clone of it, saving, and encoding.
pub mod Cases
use averlock.Prelude.{
  ℕ, ◌+◌, ◌*◌, ◌/◌, ◌%◌, ◌^◌, ◌<◌, Bool, true, false, ◌&&◌, ◌||◌, not, Option, none, some, [],
  Bytes, ltb, leb, ◌==◌, if◌then◌else◌, Result, ok, err, wrap, or_err, fail_if, ◌>>=◌, ◌>>◌, Map,
  lookup, insert, is_some, ℤ, pos, is_nonpos, abs, codes, set,
}
use averlock.Uint256.{parse_uint256, default_zero, to_string}
use averlock.Ethereum.{Hash, Geth}
use averlock.Decision.{BigInt, FccDecision, decision_domain, encode, magnitude}
use averlock.Policy.{
  NormalizedPolicy, EventAuthorization, PolicyState, EvaluationResult, evaluation_result_hash,
}
use averlock.Store.{Ptr, Heap, deref, alloc, StoreError, state_missing, StateStore}
use averlock.Snapshot.{EventSnapshot, SnapshotError}
use averlock.Guard.State.{
  EvaluateGuardRequest, Json, Gob, decode_strict, clone_policy_state, DataFixed, Action, Failure,
  decoding_evaluate, zero_ids, zero_timestamp, loading_state, unknown_rule, copying_state,
  policy_expired, nonce_replay, reading_snapshot, rule_mismatch, no_snapshot, event_consumed,
  value_mismatch, authorization_active, persisting_evaluation, hashing_result, encoding_protected,
  encoding_decision, ActionResult, Extension, Calls, result_validity_seconds, add64, respond,
}

-- decoding the request, and the checks before the lock
unfoldable pub evaluate_request : Json → DataFixed → Result Failure EvaluateGuardRequest
unfolding decode_strict
evaluate_request json df = do
  request ←
      wrap decoding_evaluate (decode_strict json.evaluate_guard json.at_eof df.original_message)
  fail_if (request.rule_id == 0 || request.event_hash == 0) zero_ids
  fail_if (df.timestamp == 0) zero_timestamp
  ok request

-- `x == nil || x.Sign() <= 0`
unfoldable pub not_positive : BigInt → Bool
not_positive none = true
not_positive (some x) = is_nonpos x

-- the checks of a snapshot, which give the event's value
unfoldable pub check_snapshot : Hash → EventSnapshot → Result Failure ℕ
unfolding not_positive magnitude
check_snapshot rule snapshot = do
  fail_if (not (snapshot.rule_id == rule)) rule_mismatch
  fail_if
      (not_positive snapshot.event_value_usd18
        || not_positive snapshot.price_usd18
        || snapshot.prepared_at == 0)
      no_snapshot
  fail_if snapshot.consumed event_consumed
  ok (magnitude snapshot.event_value_usd18)

-- the three tests of a first decision, in order
unfoldable pub should_trigger : NormalizedPolicy → ℕ → ℕ → ℕ → Bool
should_trigger policy last_triggered timestamp event_value =
    let above = ltb policy.threshold_usd18 event_value in
    let capped =
      if ltb 0 policy.max_per_event_usd18 && ltb policy.max_per_event_usd18 event_value
      then false
      else above in
    if ltb 0 last_triggered && ltb timestamp (add64 last_triggered policy.cooldown_seconds)
    then false
    else capped

-- what an evaluation leaves: the changed clone and the authorization of the event
pub record Evaluated : Type 0 where
  pub state : PolicyState
  pub authorization : EventAuthorization
  pub refreshing : Bool
  pub event_value : ℕ

-- `state.UsedNonces[nonce] = struct{}{}` and `authorization.LastExpiry = …`; the authorization is an
-- object of the clone's map, so the map shows the new expiry
unfoldable pub stamp :
    PolicyState → EvaluateGuardRequest → ℕ → ℕ → EventAuthorization → Bool → Evaluated
stamp state request timestamp event_value authorization refreshing =
    let stamped = record authorization { last_expiry = add64 timestamp result_validity_seconds } in
    record {
      state = record state {
        authorizations = insert request.event_hash stamped state.authorizations;
        used_nonces = insert request.nonce tt state.used_nonces;
      };
      authorization = stamped;
      refreshing = refreshing;
      event_value = event_value;
    }

-- the first decision for an event
unfoldable pub first_decision : PolicyState → EvaluateGuardRequest → ℕ → ℕ → Evaluated
first_decision state request timestamp event_value =
    let triggered = should_trigger state.policy state.last_triggered timestamp event_value in
    stamp (record state { last_triggered = if triggered then timestamp else state.last_triggered })
      request timestamp event_value
      (record {
        event_value_usd18 = event_value;
        triggered = triggered;
        protected_usd18 = if triggered then event_value * state.policy.protect_bps / 10_000 else 0;
        protect_bps = if triggered then state.policy.protect_bps else 0;
        schedule_id = if triggered then state.policy.schedule_id else 0;
        last_expiry = 0;
      })
      false

-- the branch on `refreshing`
unfoldable pub authorize :
    PolicyState
    → EvaluateGuardRequest
    → ℕ
    → ℕ
    → Option EventAuthorization
    → Result Failure Evaluated
authorize state request timestamp event_value none =
    ok (first_decision state request timestamp event_value)
authorize state request timestamp event_value (some authorization) = do
  fail_if (not (event_value == authorization.event_value_usd18)) value_mismatch
  fail_if (leb timestamp authorization.last_expiry) authorization_active
  ok (stamp state request timestamp event_value authorization true)

-- everything between the clone and the save
unfoldable pub evaluate_state :
    Calls → PolicyState → EvaluateGuardRequest → ℕ → Result Failure Evaluated
evaluate_state calls state request timestamp = do
  fail_if (ltb state.policy.expires_at timestamp) policy_expired
  fail_if (is_some (lookup request.nonce state.used_nonces)) nonce_replay
  snapshot ← wrap reading_snapshot (calls.get_snapshot request.event_hash)
  event_value ← check_snapshot request.rule_id snapshot
  authorize state request timestamp event_value (lookup request.event_hash state.authorizations)

-- the EvaluationResult, its hash not yet set
unfoldable pub evaluation_result : EvaluateGuardRequest → ℕ → Evaluated → EvaluationResult
evaluation_result request timestamp evaluated =
    let a = evaluated.authorization in
    record {
      rule_id = request.rule_id;
      event_hash = request.event_hash;
      triggered = a.triggered;
      protected_usd18 = if a.triggered then to_string a.protected_usd18 else [];
      protect_bps = if a.triggered then a.protect_bps else 0;
      schedule_id = if a.triggered then a.schedule_id else 0;
      event_value_usd18 = to_string evaluated.event_value;
      evaluated_at = timestamp;
      nonce = request.nonce;
      result_expiry = a.last_expiry;
      result_hash = 0;
    }

module _ (g : Geth) where
  -- the decision that is encoded
  unfoldable pub response_decision : EvaluationResult → ℕ → ℕ → FccDecision
  response_decision result protected event_value = record {
    domain = decision_domain g;
    rule_id = result.rule_id;
    event_hash = result.event_hash;
    triggered = result.triggered;
    protected_usd18 = some (pos protected);
    protect_bps = result.protect_bps;
    schedule_id = result.schedule_id;
    event_value_usd18 = some (pos event_value);
    evaluated_at = result.evaluated_at;
    nonce = some (pos result.nonce);
    result_expiry = result.result_expiry;
  }

  -- from the EvaluationResult to the response
  unfoldable pub encode_response : EvaluateGuardRequest → ℕ → Evaluated → Result Failure Bytes
  unfolding response_decision
  encode_response request timestamp evaluated = do
    let result = evaluation_result request timestamp evaluated
    hash ← wrap hashing_result (evaluation_result_hash g result)
    protected ← wrap encoding_protected (parse_uint256 (default_zero result.protected_usd18) true)
    wrap encoding_decision (encode g (response_decision result protected evaluated.event_value))

-- the two outcomes of a failed Load
unfoldable pub load_failure : StoreError → Failure
load_failure state_missing = unknown_rule
load_failure e = loading_state e

module _ {S : Type 0} where
  abbrev adopt :
      Hash → Extension S → Result StoreError Ptr × Heap × S → Result Failure Ptr × Extension S
  adopt rule e (ok p, heap, s) =
      (ok p, record e { policies = insert rule p e.policies; heap = heap; store = s })
  adopt rule e (err x, heap, s) = (err (load_failure x), record e { heap = heap; store = s })

  -- the policy in memory, or else from the store
  unfoldable pub find_state : StateStore S → Hash → Extension S → Result Failure Ptr × Extension S
  find_state store rule e = elim (lookup rule e.policies) [
    | some p ↦ (ok p, e)
    | none ↦ adopt rule e (store.load rule e.heap e.store)
  ]

  -- the counters, and the map after a successful save
  unfoldable pub record_evaluation : Hash → Ptr → Heap → S → Evaluated → Extension S → Extension S
  record_evaluation rule p heap s evaluated e = record {
    policies = insert rule p e.policies;
    heap = heap;
    store = s;
    evaluation_count = e.evaluation_count + 1;
    successful_triggers =
        if evaluated.authorization.triggered && not evaluated.refreshing
        then e.successful_triggers + 1
        else e.successful_triggers;
  }

  module _ (g : Geth) (store : StateStore S) where
    -- writing the clone, saving it and answering
    unfoldable pub commit_evaluation :
        EvaluateGuardRequest
        → ℕ
        → Ptr
        → Heap
        → Evaluated
        → Extension S
        → Result Failure Bytes × Extension S
    unfolding record_evaluation
    commit_evaluation request timestamp p heap evaluated e =
        let written = set heap p evaluated.state in
        let (saved, s) = store.save request.rule_id p written e.store in
        elim saved [
          | err x ↦ (err (persisting_evaluation x), record e { heap = written; store = s })
          | ok _ ↦ (
            encode_response g request timestamp evaluated,
            record_evaluation request.rule_id p written s evaluated e,
          )
        ]

    -- the clone and the decision on it
    unfoldable pub evaluate_at :
        Gob
        → Calls
        → EvaluateGuardRequest
        → ℕ
        → Ptr
        → Extension S
        → Result Failure Bytes × Extension S
    evaluate_at gob calls request timestamp p e =
        elim (or_err copying_state (deref e.heap p) >>= λ v.
        or_err copying_state (clone_policy_state gob v)) [
          | err x ↦ (err x, e)
          | ok copied ↦
              let (p', heap) = alloc copied e.heap in
              elim (evaluate_state calls copied request timestamp) [
                | err x ↦ (err x, record e { heap = heap })
                | ok evaluated ↦ commit_evaluation request timestamp p' heap evaluated e
              ]
        ]

    unfoldable pub evaluate_guard :
        Gob → Calls → EvaluateGuardRequest → ℕ → Extension S → Result Failure Bytes × Extension S
    evaluate_guard gob calls request timestamp e =
        let (found, e') = find_state store request.rule_id e in
        elim found [ err x ↦ (err x, e') | ok p ↦ evaluate_at gob calls request timestamp p e' ]

    -- processEvaluateGuard
    unfoldable pub process_evaluate_guard :
        Json → Gob → Calls → Action → DataFixed → Extension S → ActionResult × Extension S
    process_evaluate_guard json gob calls action df e = elim (evaluate_request json df) [
      | err x ↦ (respond action df (err x), e)
      | ok request ↦
          let (response, e') = evaluate_guard gob calls request df.timestamp e in
          (respond action df response, e')
    ]
