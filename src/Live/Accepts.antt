-- ===== src/Live/Accepts.antt =====
-- The answers of the extension server, beside what packages/fcc-extension/tools/cmd/run-test/main.go expects
-- of them.
use averlock.Prelude.{
  ℕ, ◌+◌, ◌^◌, ◌<◌, ◌≤◌, ◌≡◌, true, none, Bytes, arith, ok, lookup, inl, inr, length,
}
use averlock.Ethereum.{Geth, IsGeth}
use averlock.Decision.{FccDecision, decode, decision_domain}
use averlock.Policy.{PolicyState}
use averlock.Guard.State.{EvaluateGuardRequest, Calls}
use averlock.Guard.Evaluate.{
  Evaluated, evaluate_state, encode_response, should_trigger, first_decision, stamp,
}
use averlock.Guard.Response.{signed_decision, encode_response-decode}
use averlock.Guard.History.Evolves.{evaluate_state_lem, authorize_cases}
use averlock.Guard.Sound.{IsSound, AreTyped, IsTypedRequest, evaluate_state-IsTyped}
use averlock.Live.Answers.{
  decode_response, check_decision, check_context, check_times, same_int, before, expected_protected,
  result_domain,
}

-- A time within two minutes of the clock, far from the end of uint64.
pub record IsTimely (started finished timestamp : ℕ) : Type 0 where
  pub after_start : before 120 started ≤ timestamp
  pub before_end : timestamp ≤ finished + 120
  pub clock_fits : finished + 120 < 2 ^ 64
  pub expiry_fits : timestamp + 600 < 2 ^ 64

module _ (g : Geth) (r : EvaluateGuardRequest) (timestamp value started finished : ℕ)
    (timely : IsTimely started finished timestamp) where
  first_decision-accepted :
      (v : PolicyState)
      → should_trigger v.policy v.last_triggered timestamp value ≡ true
      → v.policy.protect_bps ≡ 7000
      → v.policy.schedule_id ≡ 1
      → check_decision g r.rule_id r.event_hash value r.nonce started finished
          (signed_decision g r timestamp (first_decision v r timestamp value))
        ≡ ok tt
  unfolding check_decision check_context check_times same_int expected_protected result_domain
      signed_decision first_decision stamp decision_domain
  first_decision-accepted v triggers bps schedule = ground (
    arith, triggers, bps, schedule, timely.after_start, timely.before_end, timely.clock_fits,
    timely.expiry_fits,
  )

  decode_response_lem :
      (bytes : Bytes) (d : FccDecision)
      → length bytes ≡ 352
      → decode g bytes ≡ ok d
      → decode_response g bytes ≡ ok d
  unfolding decode_response
  decode_response_lem bytes d size decoded = ground (arith, size, decoded)

-- The live test accepts the extension server's answer to the first evaluation of an event that
-- triggers: from a sound state whose policy protects 7000 basis points, an evaluation within the
-- clock's window that passes is answered with bytes that decode to a decision with which
-- evaluateExistingSnapshot finds nothing wrong, for the same rule, event, value and nonce.
pub evaluate_state-check_decision :
    (g : Geth) (calls : Calls) (v : PolicyState) (r : EvaluateGuardRequest)
    (timestamp started finished : ℕ) (ev : Evaluated)
    → IsGeth g
    → IsSound v
    → AreTyped calls
    → IsTypedRequest r timestamp
    → IsTimely started finished timestamp
    → evaluate_state calls v r timestamp ≡ ok ev
    → lookup r.event_hash v.authorizations ≡ none
    → should_trigger v.policy v.last_triggered timestamp ev.event_value ≡ true
    → v.policy.protect_bps ≡ 7000
    → (bytes : Bytes) × (d : FccDecision) × (encode_response g r timestamp ev ≡ ok bytes)
      × (decode_response g bytes ≡ ok d)
      × (check_decision g r.rule_id r.event_hash ev.event_value r.nonce started finished d ≡ ok tt)
unfolding first_decision stamp
evaluate_state-check_decision g calls v r timestamp started finished ev ax sound typed within timely
      passed fresh triggers bps =
    let (s, value, _, _, authorized) = (evaluate_state_lem calls v r timestamp ev passed).2 in
    let (bytes, answered, size, decoded) =
      encode_response-decode g ax r timestamp ev
        (evaluate_state-IsTyped calls v r timestamp ev typed sound within passed) in
    let made : ev ≡ first_decision v r timestamp value =
      elim (authorize_cases r timestamp value v (lookup r.event_hash v.authorizations) ev
        authorized) [
          | inl (_, made) ↦ made
          | inr (x, present, _, _, _) ↦ absurd (cc (fresh, present))
        ] in
    let same : ev.event_value ≡ value = ground (arith, made) in
    let d =
      decode_response_lem g r timestamp value started finished timely bytes
        (signed_decision g r timestamp ev) size decoded in
    (
      bytes,
      signed_decision g r timestamp ev,
      answered,
      d,
      rw (same, made)
          (first_decision-accepted g r timestamp value started finished timely v
            (rw (← same) triggers) bps sound.valid.schedule_one),
    )
