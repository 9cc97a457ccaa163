-- ===== src/Live/Evaluation.antt =====
-- An evaluation that is sent and checked: evaluateExistingSnapshot and sendEvaluation in
-- packages/fcc-extension/tools/cmd/run-test/main.go.
use averlock.Prelude.{
  ℕ, Bool, ◌||◌, not, Option, none, some, Bytes, codes, is_empty, length, ◌==◌, if◌then◌else◌,
  Result, ok, or_err, fail_if, ◌>>=◌, ◌>>◌,
}
use averlock.Ethereum.{Hash, Geth}
use averlock.Decision.{FccDecision}
use averlock.Validate.{Address, has_prefix}
use averlock.Live.{
  HexText, LiveError, bad_arguments, no_snapshot, already_consumed, send_failed, bad_artifact,
  uint_value, must_evaluation_hash,
}
use averlock.Live.Answers.{
  ActionResponse, Signing, Manager, GuardManagerSnapshot, must_result, decode_response,
  check_context, check_times, check_decision, read_guard_manager_snapshot,
}

-- the instruction sender and the proxy: an evaluation that is sent has an action ID and a transaction, and
-- the proxy answers for an action
pub record Instructions : Type 0 where
  pub send_evaluate_guard : Hash → Hash → ℕ → Option (Hash × Hash)
  pub action_result : Hash → Option ActionResponse

-- the clock: the seconds before the request and after the answer, and the nanoseconds of the nonce
pub record Clock : Type 0 where
  pub started : ℕ
  pub finished : ℕ
  pub unix_nano : ℕ

-- the values of the artifact that are not the program's arguments
pub record Artifact : Type 0 where
  pub action_id : Hash
  pub transaction_hash : Hash
  pub response : ActionResponse
  pub decision : FccDecision
  pub result_hash : Hash

-- evaluationEvidence, whose Result is only there for a successful action
pub record EvaluationEvidence : Type 0 where
  pub action_id : Hash
  pub tx_hash : Hash
  pub result : Option FccDecision
  pub raw_data : Bytes
  pub log : Bytes

-- `len(text) != 66 || !strings.HasPrefix(text, "0x")`
not_bytes32 : Bytes → Bool
not_bytes32 text = not (length text == 66) || not (has_prefix text (codes "0x"))

-- the snapshot of the event, which has to be there and not consumed
unfoldable pub usable_snapshot : Hash → GuardManagerSnapshot × Bool → Result LiveError (Unit {0})
usable_snapshot rule_id (snapshot, consumed) =
    fail_if
      (not (snapshot.rule_id == rule_id)
        || (snapshot.event_value_usd18 == 0
            || (snapshot.price_usd18 == 0 || snapshot.prepared_at == 0)))
      no_snapshot
    >> fail_if consumed already_consumed

-- the arguments of evaluateExistingSnapshot
pub record Arguments : Type 0 where
  pub manager_text : Bytes
  pub rule_text : Bytes
  pub event_text : Bytes
  pub artifact_path : Bytes

module _ (g : Geth) (hex : HexText) (signing : Signing) (instructions : Instructions)
    (clock : Clock) (tee : Address) where
  -- evaluateExistingSnapshot, where `writes` says whether the artifact can be written
  unfoldable pub evaluate_existing_snapshot : Manager → Bool → Arguments → Result LiveError Artifact
  unfolding not_bytes32
  evaluate_existing_snapshot manager writes args = do
    fail_if (not_bytes32 args.rule_text || not_bytes32 args.event_text) bad_arguments
    fail_if (not (hex.is_hex_address args.manager_text) || is_empty args.artifact_path)
        bad_arguments
    let rule_id = hex.hex_to_hash args.rule_text
    let event_hash = hex.hex_to_hash args.event_text
    read ← read_guard_manager_snapshot g manager event_hash
    done ← usable_snapshot rule_id read
    sent ← or_err send_failed (instructions.send_evaluate_guard rule_id event_hash clock.unix_nano)
    response ← must_result signing (instructions.action_result sent.0) sent.0 tee 1
    decoded ← decode_response g response.result_data
    checked ←
        check_decision g rule_id event_hash read.0.event_value_usd18 clock.unix_nano clock.started
          clock.finished decoded
    result_hash ← must_evaluation_hash g decoded
    fail_if (not writes) bad_artifact
    ok (record {
      action_id = sent.0;
      transaction_hash = sent.1;
      response = response;
      decision = decoded;
      result_hash = result_hash;
    })

module _ (g : Geth) (signing : Signing) (instructions : Instructions) (clock : Clock)
    (tee : Address) where
  decoded_result : Hash → Hash → Bytes → ℕ → ActionResponse → Result LiveError FccDecision
  decoded_result rule_id event_hash value nonce response = do
    decoded ← decode_response g response.result_data
    expected_value ← uint_value value
    context ← check_context g rule_id event_hash expected_value nonce decoded
    times ← check_times clock.started clock.finished decoded
    ok decoded

  -- sendEvaluation
  unfoldable pub send_evaluation : Hash → Hash → Bytes → ℕ → ℕ → Result LiveError EvaluationEvidence
  unfolding decoded_result
  send_evaluation rule_id event_hash value nonce expected_status = do
    sent ← or_err send_failed (instructions.send_evaluate_guard rule_id event_hash nonce)
    response ← must_result signing (instructions.action_result sent.0) sent.0 tee expected_status
    result ←
        (if expected_status == 1
          then decoded_result rule_id event_hash value nonce response >>= (λ d. ok (some d))
          else ok none)
    ok (record {
      action_id = sent.0;
      tx_hash = sent.1;
      result = result;
      raw_data = response.result_data;
      log = response.log;
    })
