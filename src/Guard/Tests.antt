-- ===== src/Guard/Tests.antt =====
-- A server on the memory store that is run: a policy is created, an event is decided, and decided
-- again.
mod World
mod Ledgers
mod Coding
mod Parts
mod Sealed
use averlock.Prelude.{
  ◌≤◌, ◌≢◌, ◌^◌, ◌<◌, ◌⊎◌, ℕ, ◌≡◌, refl, true, false, some, none, [], ◌∷◌, Bytes, List, Result, ok,
  err, codes, ltb, length, pos, arith, lookup, insert,
}
use averlock.Ethereum.Words.{of_bytes}
use averlock.Guard.Evaluate.{
  evaluate_guard, find_state, authorize, check_snapshot, commit_evaluation, encode_response,
  evaluate_at, evaluate_request, evaluate_state, evaluation_result, first_decision, load_failure,
  not_positive, process_evaluate_guard, record_evaluation, response_decision, should_trigger, stamp,
}
use averlock.Guard.Create.{
  process_create_policy, create_request, add_policy, load_conflict, save_policy,
}
use averlock.Uint256.{parse_uint256, default_zero, digits, to_string}
use averlock.Decision.{
  FccDecision, decode, bad_chain, bad_uint256, decision_domain, encode, fields, hash_fields,
  magnitude, result_hash, validate,
}
use averlock.Ethereum.Static.{fold_hash, words, words-IsGeth}
use averlock.Policy.{
  NormalizedPolicy, Policy, normalize_policy, policy_commitment, commitment_fields, decision_of,
  evaluation_result_hash, policy_domain,
}
use averlock.Store.{IsKeeper}
use averlock.Store.Memory.{
  new_memory_store-Good, MemoryStore, memory_store, memory_store-IsStore, memory_store-IsKeeper,
  load, save, unbound,
}
use averlock.Snapshot.{EventSnapshot}
use averlock.Guard.State.{
  add64, result_validity_seconds, Json, EvaluateGuardRequest, Failure, Extension, DataFixed, Action,
  Calls, nonce_replay, policy_expired, build_result, clone_policy_state, decode_strict, log_of,
}
use averlock.Ethereum.{Hash}
use averlock.Guard.Dispatch.{
  state_handler, Server, TeeNode, run, new_with_dependencies, process_action, op_type,
  op_create_policy, op_evaluate_guard, process_guard,
}
use averlock.Guard.Replay.{answers_in_a_row-lt, evaluates, nonce_replay_refused}
use averlock.Guard.Outcome.{Unchanged}
use averlock.Guard.Guarantees.{
  Answers, SameTold, failed_evaluation-Unchanged, answer-Answers, answers_agree,
}
use averlock.Guard.History.Actions.{IsServer, run-Keeps}
use averlock.Guard.History.Memory.{Keeps}
use averlock.Guard.Created.{IsCreated, process_create_policy-IsCreated}
use averlock.Guard.Counters.{state_handler-le}
use averlock.Guard.Sound.{IsSound, AreTyped, IsTypedRequest}
use averlock.Guard.Tests.Coding.{flat_gob, flat_gob-IsGob}
use averlock.Guard.Tests.World.{
  answer, calls, create, first, fixed, json, keeper, late, next, reached, request, second, server,
  server_laws, tee, wire,
}

-- The event is decided, decided again after the first result has expired, and refused after the
-- policy has.
outcomes :
    (first.0 ≡ ok (answer first.0))
    × (second.0 ≡ ok (answer second.0))
    × (late.0 ≡ err policy_expired)
    × (next.0 ≡ ok (answer next.0))
unfolding evaluate_guard find_state lookup process_action of_bytes op_type op_create_policy
    process_create_policy create_request normalize_policy parse_uint256 policy_commitment add_policy
    load_conflict load save_policy save bad_chain bad_uint256 decision_domain encode fields
    hash_fields magnitude result_hash validate op_evaluate_guard process_guard authorize
    check_snapshot commit_evaluation encode_response evaluate_at evaluate_request evaluate_state
    evaluation_result first_decision load_failure not_positive process_evaluate_guard
    record_evaluation response_decision should_trigger stamp build_result clone_policy_state
    decode_strict log_of commitment_fields decision_of evaluation_result_hash policy_domain insert
    unbound default_zero digits to_string run fold_hash
outcomes = (refl, refl, refl, refl)

typed : AreTyped calls
unfolding magnitude
typed h s e = ground arith

within : (n at : ℕ) → n < 2 ^ 64 → at < 2 ^ 64 → IsTypedRequest (request n) at
within n at n_fits at_fits = record {
  rule_fits = omega arith;
  event_fits = omega arith;
  nonce_fits = n_fits;
  time_fits = at_fits;
}

new_good : keeper.Good [] []
new_good = new_memory_store-Good IsSound

nonce_replay_refused_example :
    let later = run server (create ∷ []) first.1 in
    let again = evaluates server calls (request 1) 800 later in
    (again.0 ≡ err policy_expired) ⊎ (again.0 ≡ err nonce_replay)
nonce_replay_refused_example =
    nonce_replay_refused server server_laws calls calls (request 1) (request 1) 100 800
      (answer first.0) reached (create ∷ []) outcomes.0 refl refl

answer-Answers_example :
    (d : FccDecision) × (decode words (answer first.0) ≡ ok d) × Answers (request 1) 100 d
answer-Answers_example =
    answer-Answers server server_laws keeper [] new_good (create ∷ []) (typed, tt) calls typed
      (request 1) 100 (within 1 100 (omega arith) (omega arith)) (answer first.0) outcomes.0

answers_agree_example :
    (d : FccDecision) × (d' : FccDecision) × (decode words (answer first.0) ≡ ok d)
    × (decode words (answer second.0) ≡ ok d')
    × SameTold d d'
answers_agree_example =
    answers_agree server server_laws keeper [] new_good (create ∷ []) (typed, tt) calls typed
      (request 1) 100 (within 1 100 (omega arith) (omega arith)) (answer first.0) outcomes.0
      (create ∷ []) (typed, tt) calls typed (request 2) 800
      (within 2 800 (omega arith) (omega arith)) (answer second.0) outcomes.1 refl refl

failed_evaluation-Unchanged_example : Unchanged reached late.1
failed_evaluation-Unchanged_example =
    failed_evaluation-Unchanged server server_laws keeper [] new_good (create ∷ []) (typed, tt)
      calls typed (request 1) 200_000 (within 1 200_000 (omega arith) (omega arith)) policy_expired
      outcomes.2

run-Keeps_example : Keeps reached (run server (create ∷ []) reached)
run-Keeps_example = run-Keeps server server_laws (create ∷ []) reached

process_create_policy-IsCreated_example :
    let creating = process_create_policy memory_store words json calls create.1 fixed reached in
    ((creating.0.status ≡ 0) × Unchanged reached creating.1)
    ⊎ ((creating.0.status ≡ 1)
        × ((policy : NormalizedPolicy) × (commitment : Hash) × (create_request words json calls
                fixed
              ≡ ok (policy, commitment))
            × IsCreated memory_store memory_store-IsStore policy commitment reached creating.1))
process_create_policy-IsCreated_example =
    process_create_policy-IsCreated memory_store memory_store-IsStore words json calls create.1
      fixed reached

state_handler-le_example :
    let state = state_handler server (run server (create ∷ []) (new_with_dependencies [])) in
    state.successful_triggers ≤ state.evaluation_count
state_handler-le_example = state_handler-le server server_laws [] (create ∷ [])

answers_in_a_row-lt_example : add64 100 result_validity_seconds < 800
answers_in_a_row-lt_example =
    answers_in_a_row-lt server server_laws calls calls (request 1) (request 2) 100 800
      (answer first.0) (answer next.0) reached outcomes.0 outcomes.3 refl refl
