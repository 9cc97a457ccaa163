-- ===== src/Live/Tests.antt =====
-- The live test at concrete values.
mod Restores
mod Resumes
use averlock.Prelude.{
  ℕ, ◌≡◌, refl, true, false, none, some, List, [], ◌∷◌, Bytes, ok, codes, arith, or_err, pos,
  lookup,
}
use averlock.Ethereum.Static.{words, words-IsGeth}
use averlock.Policy.{Policy, NormalizedPolicy, PolicyState, normalize_policy, policy_commitment}
use averlock.Uint256.{parse_uint256, set_string, scan_nat, scan}
use averlock.Guard.State.{Calls, EvaluateGuardRequest}
use averlock.Decision.{FccDecision, magnitude}
use averlock.Guard.Sound.{IsSound, AreTyped, IsTypedRequest}
use averlock.Guard.Evaluate.{
  check_snapshot, authorize, not_positive, should_trigger, stamp, Evaluated, first_decision,
  encode_response, evaluate_state,
}
use averlock.Live.{packing_failed, must_policy_commitment}
use averlock.Live.Answers.{decode_response, check_decision, before}
use averlock.Live.Commitment.{must_policy_commitment-policy_commitment}
use averlock.Live.Accepts.{IsTimely, evaluate_state-check_decision}
use averlock.Live.Machines.{Chain, retire_stale_machines}
use averlock.Live.Retired.{Retired, OnlyExpected, retire_stale_machines-Retired}

-- the policy of the live test
abbrev pub wire : Policy
wire = record {
  rule_id = 7;
  threshold_usd18 = codes "10";
  protect_bps = 7_000;
  schedule_id = 1;
  max_per_event_usd18 = codes "0";
  cooldown_seconds = 60;
  expires_at = 100_000;
}

abbrev pub normal : NormalizedPolicy
normal = record {
  rule_id = 7;
  threshold_usd18 = 10;
  protect_bps = 7_000;
  schedule_id = 1;
  max_per_event_usd18 = 0;
  cooldown_seconds = 60;
  expires_at = 100_000;
}

-- two machines, of which one is stale, and no other once it is banned
abbrev chain : Chain (List ℕ)
chain = record {
  get_active_tee_machines = λ tees n. some tees;
  get_tee_machine_owner = λ tees tee. some 3;
  get_extension_id = λ tees tee. some 4;
  get_tee_machine_status = λ tees tee. some 2;
  get_tee_machine = λ tees tee. none;
  transactor = true;
  ban = λ tee tees. (true, 5 ∷ []);
  check_tx = λ tees. some 1;
}

retire_stale_machines-Retired_example :
    Retired chain 3 5 4 (5 ∷ 6 ∷ []) (retire_stale_machines chain 3 5 4 (5 ∷ 6 ∷ [])).1
    × ((retire_stale_machines chain 3 5 4 (5 ∷ 6 ∷ [])).0 ≡ ok tt
        → OnlyExpected chain 3 5 4 (retire_stale_machines chain 3 5 4 (5 ∷ 6 ∷ [])).1)
retire_stale_machines-Retired_example = retire_stale_machines-Retired chain 3 5 4 (5 ∷ 6 ∷ [])

wire_accepted : normalize_policy wire ≡ ok normal
unfolding normalize_policy parse_uint256 set_string scan_nat scan
wire_accepted = refl

must_policy_commitment-policy_commitment_example :
    must_policy_commitment words wire ≡ or_err packing_failed (policy_commitment words normal)
must_policy_commitment-policy_commitment_example =
    must_policy_commitment-policy_commitment words wire normal wire_accepted

abbrev calls : Calls
calls = record {
  decrypt = λ bs. some bs;
  get_snapshot = λ h. ok (record {
    rule_id = 7;
    event_value_usd18 = some (pos 21);
    price_usd18 = some (pos 1);
    price_timestamp = 1;
    payment_timestamp = 1;
    prepared_at = 1;
    consumed = false;
  });
}

calls-AreTyped : AreTyped calls
calls-AreTyped = λ h s told. unfold magnitude in ground (arith, told)

abbrev request : EvaluateGuardRequest
request = record { rule_id = 7; event_hash = 9; nonce = 1 }

request-IsTypedRequest : IsTypedRequest request 1_000
request-IsTypedRequest = record {
  rule_fits = omega arith;
  event_fits = omega arith;
  nonce_fits = omega arith;
  time_fits = omega arith;
}

abbrev state : PolicyState
state = record {
  policy = normal;
  commitment = 1;
  last_triggered = 0;
  authorizations = [];
  used_nonces = [];
}

state-IsSound : IsSound state
state-IsSound = record {
  valid = record {
    threshold_pos = omega arith;
    threshold_fits = omega arith;
    bps_pos = omega arith;
    bps_le = omega arith;
    schedule_one = refl;
    max_fits = omega arith;
  };
  decided = λ h a found. unfold lookup in absurd (cc found);
}

timely : IsTimely 990 1_010 1_000
timely =
    unfold before in
    record {
      after_start = omega arith;
      before_end = omega arith;
      clock_fits = omega arith;
      expiry_fits = omega arith;
    }

abbrev evaluated : Evaluated
evaluated = first_decision state request 1_000 21

passed : evaluate_state calls state request 1_000 ≡ ok evaluated
unfolding evaluate_state check_snapshot authorize not_positive magnitude lookup
passed = refl

triggers : should_trigger normal 0 1_000 evaluated.event_value ≡ true
unfolding should_trigger first_decision stamp
triggers = refl

evaluate_state-check_decision_example :
    (bytes : Bytes) × (d : FccDecision) × (encode_response words request 1_000 evaluated ≡ ok bytes)
    × (decode_response words bytes ≡ ok d)
    × (check_decision words 7 9 evaluated.event_value 1 990 1_010 d ≡ ok tt)
unfolding lookup
evaluate_state-check_decision_example =
    evaluate_state-check_decision words calls state request 1_000 990 1_010 evaluated words-IsGeth
      state-IsSound calls-AreTyped request-IsTypedRequest timely passed refl triggers refl
