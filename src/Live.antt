-- ===== src/Live.antt =====
-- The live test of a deployment: packages/fcc-extension/tools/cmd/run-test/main.go. The chain, the proxy,
-- the clock and go-ethereum are parameters; an exit by FatalWithCause is an error.
pub mod Answers
pub mod Evaluation
pub mod Machines
pub mod Restore
pub mod Scenario
pub mod Commitment
pub mod Accepts
pub mod Main
pub mod Restored
pub mod Resumed
pub mod Retired
mod Tests
use averlock.Prelude.{
  ℕ, ◌+◌, ◌-◌, ◌*◌, ◌/◌, ◌%◌, ◌^◌, Bool, true, false, ◌||◌, ◌&&◌, not, Option, none, some, List, [],
  ◌∷◌, ◌++◌, Bytes, codes, is_empty, ◌==◌, if◌then◌else◌, Result, ok, err, or_err, fail_if, ◌>>=◌,
  ◌>>◌, ℤ, pos, negsuc,
}
use averlock.Ethereum.{Hash, Geth, AbiValue, bytes32, uint}
use averlock.Uint256.{set_string, to_string}
use averlock.Policy.{Policy}
use averlock.Decision.{FccDecision, result_hash}
use averlock.Validate.{Address, has_prefix}

-- go-ethereum's texts of addresses and hashes
pub record HexText : Type 0 where
  pub is_hex_address : Bytes → Bool
  pub hex_to_address : Bytes → Address
  pub hex_to_hash : Bytes → Hash

-- chainID
abbrev pub chain_id : ℕ
chain_id = 114

abbrev pub expected_protect_bps : ℕ
expected_protect_bps = 7000

abbrev pub expected_schedule_id : ℕ
expected_schedule_id = 1

abbrev pub expected_decision_lifetime : ℕ
expected_decision_lifetime = 600

-- why the program exits
pub data LiveError : Type 0 where
  bad_arguments : LiveError
  machine_refused : LiveError
  query_failed : LiveError
  retirement_refused : LiveError
  retirement_failed : LiveError
  still_ambiguous : LiveError
  send_failed : LiveError
  no_result : LiveError
  unexpected_result : LiveError
  bad_signature : LiveError
  bad_fixture : LiveError
  packing_failed : LiveError
  hash_failed : LiveError
  bad_length : LiveError
  bad_decision : LiveError
  context_mismatch : LiveError
  not_triggered : LiveError
  protected_mismatch : LiveError
  bad_time : LiveError
  no_snapshot : LiveError
  already_consumed : LiveError
  leaked : LiveError
  bad_artifact : LiveError
  commitment_mismatch : LiveError
  policy_expired : LiveError
  bad_acknowledgment : LiveError
  bad_policy_count : LiveError
  not_ready : LiveError

-- uintValue
unfoldable pub uint_value : Bytes → Result LiveError ℤ
uint_value value = or_err bad_fixture (set_string value)

-- a *big.Int that is packed as a uint256: its two's complement
unfoldable pub uint256_of : ℤ → ℕ
uint256_of (pos n) = n % 2 ^ 256
uint256_of (negsuc n) = 2 ^ 256 - 1 - n % 2 ^ 256

module _ (g : Geth) where
  -- the arguments that mustPolicyCommitment packs
  unfoldable pub commitment_arguments : Policy → ℤ → ℤ → List AbiValue
  unfolding uint256_of
  commitment_arguments p threshold max_per_event =
      bytes32 (g.keccak (codes "AVERLOCK_POLICY_V1"))
      ∷ bytes32 p.rule_id
      ∷ uint 256 (uint256_of threshold)
      ∷ uint 16 p.protect_bps
      ∷ uint 32 p.schedule_id
      ∷ uint 256 (uint256_of max_per_event)
      ∷ uint 64 p.cooldown_seconds
      ∷ uint 64 p.expires_at
      ∷ []

  -- mustPolicyCommitment
  unfoldable pub must_policy_commitment : Policy → Result LiveError Hash
  unfolding uint_value
  must_policy_commitment p = do
    threshold ← uint_value p.threshold_usd18
    max_per_event ← uint_value p.max_per_event_usd18
    encoded ← or_err packing_failed (g.pack (commitment_arguments p threshold max_per_event))
    ok (g.keccak encoded)

  hash_or_exit : {E A : Type 0} → Result E A → Result LiveError A
  hash_or_exit (ok h) = ok h
  hash_or_exit (err e) = err hash_failed

  -- mustEvaluationHash
  unfoldable pub must_evaluation_hash : FccDecision → Result LiveError Hash
  unfolding hash_or_exit
  must_evaluation_hash r = hash_or_exit (result_hash g (some (pos chain_id)) r)

-- `strings.Contains`
unfoldable pub contains_text : Bytes → Bytes → Bool
contains_text [] part = is_empty part
contains_text (c ∷ s) part = has_prefix (c ∷ s) part || contains_text s part

-- assertPrivateFieldsAbsent; the order of the map's iteration only chooses the message
unfoldable pub assert_private_fields_absent : Bytes → Policy → Result LiveError (Unit {0})
unfolding contains_text
assert_private_fields_absent bytes p =
    fail_if
      (contains_text bytes p.threshold_usd18
        || (contains_text bytes p.max_per_event_usd18
            || (contains_text bytes (to_string p.cooldown_seconds)
                || contains_text bytes (to_string p.expires_at))))
      leaked

-- assertEvaluationPrivateFieldsAbsent
unfoldable pub assert_evaluation_private_fields_absent :
    Bytes → Policy → Result LiveError (Unit {0})
unfolding assert_private_fields_absent contains_text
assert_evaluation_private_fields_absent bytes p =
    assert_private_fields_absent bytes p
    >> fail_if
        (contains_text bytes (codes "thresholdUsd18")
          || (contains_text bytes (codes "maxPerEventUsd18")
              || (contains_text bytes (codes "cooldownSeconds")
                  || contains_text bytes (codes "expiresAt"))))
        leaked
