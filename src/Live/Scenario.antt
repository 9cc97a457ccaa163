-- ===== src/Live/Scenario.antt =====
-- The scenario of the live test: main of packages/fcc-extension/tools/cmd/run-test/main.go.
use averlock.Prelude.{
  ℕ, ◌+◌, ◌%◌, ◌^◌, Bool, ◌||◌, not, Option, none, some, ◌∷◌, Bytes, codes, bytes_eq, ◌==◌,
  if◌then◌else◌, Result, ok, or_err, fail_if, ◌>>=◌, ◌>>◌, pos, negsuc,
}
use averlock.Ethereum.{Hash, Geth}
use averlock.Uint256.{to_string}
use averlock.Decision.{FccDecision, BigInt}
use averlock.Policy.{Policy}
use averlock.Signer.{to_lower}
use averlock.Validate.{Address}
use averlock.Live.{
  LiveError, send_failed, unexpected_result, not_triggered, expected_protect_bps,
  expected_schedule_id, contains_text, must_policy_commitment, must_evaluation_hash,
  assert_private_fields_absent, assert_evaluation_private_fields_absent,
}
use averlock.Live.Answers.{ActionResponse, Signing, must_result}
use averlock.Live.Evaluation.{Instructions, Clock, EvaluationEvidence, send_evaluation}
use averlock.Live.Restore.{Formats, check_acknowledgment}

-- what one request meets
pub record Turn : Type 0 where
  pub instructions : Instructions
  pub clock : Clock

-- what the scenario meets: the results of SetExtensionId (the error's text) and SendCreatePolicy, the
-- proxy's answers, and one turn for each evaluation
pub record World : Type 0 where
  pub set_extension_id : Option Bytes
  pub create_id : Option Hash
  pub create_answer : Option ActionResponse
  pub malformed_id : Option Hash
  pub malformed_answer : Option ActionResponse
  pub trigger_turn : Turn
  pub replay_turn : Turn
  pub cooldown_turn : Turn
  pub non_trigger_turn : Turn

-- the random hashes
pub record Fresh : Type 0 where
  pub rule_id : Hash
  pub trigger_event : Hash
  pub cooldown_event : Hash
  pub non_trigger_event : Hash

-- privatePolicy
unfoldable pub private_policy : Hash → ℕ → Policy
private_policy rule_id base_timestamp = record {
  rule_id = rule_id;
  threshold_usd18 = codes "1000000000000000000000";
  protect_bps = expected_protect_bps;
  schedule_id = expected_schedule_id;
  max_per_event_usd18 = codes "10000000000000000000000";
  cooldown_seconds = 60;
  expires_at = (base_timestamp + 604_800) % 2 ^ 64;
}

-- `err != nil && !strings.Contains(err.Error(), "already set")`
unfoldable pub extension_id_set : Option Bytes → Result LiveError (Unit {0})
extension_id_set none = ok tt
extension_id_set (some e) = fail_if (not (contains_text e (codes "already set"))) send_failed

-- `x.String()`
decimal : BigInt → Bytes
decimal none = codes "<nil>"
decimal (some (pos n)) = to_string n
decimal (some (negsuc n)) = b'-' ∷ to_string (n + 1)

unfoldable pub check_trigger : FccDecision → Result LiveError (Unit {0})
unfolding decimal
check_trigger d =
    fail_if
      (not d.triggered
        || (not (bytes_eq (decimal d.protected_usd18) (codes "1400000000000000000000"))
            || (not (d.protect_bps == expected_protect_bps)
                || not (d.schedule_id == expected_schedule_id))))
      not_triggered

-- a decision that has to be there and not triggered
unfoldable pub check_blocked : Policy → EvaluationEvidence → Result LiveError (Unit {0})
check_blocked p evidence = do
  d ← or_err unexpected_result evidence.result
  fail_if d.triggered unexpected_result
  assert_evaluation_private_fields_absent evidence.raw_data p

module _ (g : Geth) (signing : Signing) (formats : Formats) (tee : Address) (world : World)
    (fresh : Fresh) (base_timestamp : ℕ) where
  -- the policy that is created
  abbrev created_policy : Policy
  created_policy = private_policy fresh.rule_id base_timestamp

  -- CREATE_POLICY and its acknowledgment
  unfoldable pub create_policy : Result LiveError (Unit {0})
  unfolding check_acknowledgment
  create_policy = do
    create_id ← or_err send_failed world.create_id
    response ← must_result signing world.create_answer create_id tee 1
    expected ← must_policy_commitment g created_policy
    acknowledged ← check_acknowledgment formats response.result_data fresh.rule_id expected
    assert_private_fields_absent response.result_data created_policy

  -- a request with a timestamp of the client, which has to be refused
  unfoldable pub refuse_timestamp : Result LiveError (Unit {0})
  refuse_timestamp = do
    malformed_id ← or_err send_failed world.malformed_id
    response ← must_result signing world.malformed_answer malformed_id tee 0
    fail_if
        (not (contains_text (to_lower response.log) (codes "unknown field"))
          || not (contains_text response.log (codes "eventTimestamp")))
        unexpected_result

  send_turn : Turn → Hash → Bytes → ℕ → ℕ → Result LiveError EvaluationEvidence
  send_turn turn = send_evaluation g signing turn.instructions turn.clock tee fresh.rule_id

  -- the four evaluations
  unfoldable pub evaluations : Result LiveError (Unit {0})
  unfolding send_turn
  evaluations = do
    trigger ← send_turn world.trigger_turn fresh.trigger_event (codes "2000000000000000000000") 1 1
    decided ← or_err unexpected_result trigger.result
    triggered ← check_trigger decided
    hashed ← must_evaluation_hash g decided
    replay ← send_turn world.replay_turn fresh.trigger_event (codes "2000000000000000000000") 1 0
    fail_if (not (contains_text (to_lower replay.log) (codes "replay"))) unexpected_result
    cooldown ←
        send_turn world.cooldown_turn fresh.cooldown_event (codes "2000000000000000000000") 2 1
    cooled ← check_blocked created_policy cooldown
    non_trigger ←
        send_turn world.non_trigger_turn fresh.non_trigger_event (codes "500000000000000000000") 3 1
    check_blocked created_policy non_trigger

  -- main without -evaluateGuardSnapshot and -restorePolicyArtifact
  unfoldable pub run_scenario : Bool → Result LiveError (Unit {0})
  unfolding extension_id_set
  run_scenario create_policy_only =
      extension_id_set world.set_extension_id
      >> create_policy
      >> (if create_policy_only then ok tt else refuse_timestamp >> evaluations)
