-- ===== src/Live/Restore.antt =====
-- A policy that is restored: restoreExistingPolicy and confirmLivePolicyCount in
-- packages/fcc-extension/tools/cmd/run-test/main.go.
use averlock.Prelude.{
  ℕ, ◌||◌, not, Option, ◌++◌, Bytes, codes, is_empty, length, take, ltb, leb, ◌==◌, if◌then◌else◌,
  Result, ok, or_err, fail_if, ◌>>=◌, ◌>>◌,
}
use averlock.Ethereum.{Hash, Geth}
use averlock.Ethereum.Words.{of_bytes, to_bytes}
use averlock.Policy.{Policy}
use averlock.Snapshot.{slice}
use averlock.Guard.State.{CreatePolicyResponse}
use averlock.Validate.{Address, has_prefix}
use averlock.Live.{
  HexText, LiveError, bad_arguments, bad_artifact, commitment_mismatch, query_failed,
  policy_expired, send_failed, bad_acknowledgment, bad_policy_count, must_policy_commitment,
  assert_private_fields_absent,
}
use averlock.Live.Answers.{ActionResponse, Signing, must_result}

-- encoding/json on a policy file and on a createPolicyResponse
pub record Formats : Type 0 where
  pub policy : Bytes → Option Policy
  pub created : Bytes → Option CreatePolicyResponse

-- what the program meets: the contract's answer to getGuard, the time after it, ECIES with
-- SendCreatePolicy, the proxy's answer for an action, and the count of policies that /state tells
pub record Surroundings : Type 0 where
  pub get_guard : Bytes → Option Bytes
  pub now : ℕ
  pub encrypt : Bytes → Option Bytes
  pub send_create_policy : Bytes → Option (Hash × Hash)
  pub action_result : Hash → Option ActionResponse
  pub live_policy_count : Option ℕ

-- confirmLivePolicyCount
unfoldable pub confirm_live_policy_count : Surroundings → ℕ → Result LiveError (Unit {0})
confirm_live_policy_count s expected = do
  count ← or_err query_failed s.live_policy_count
  fail_if (not (count == expected)) bad_policy_count

-- what an acknowledgment says of a policy
unfoldable pub check_acknowledgment : Formats → Bytes → Hash → Hash → Result LiveError (Unit {0})
check_acknowledgment formats bytes rule_id commitment = do
  created ← or_err bad_acknowledgment (formats.created bytes)
  fail_if
      (not created.accepted
        || (not (created.rule_id == rule_id) || not (created.policy_commitment == commitment)))
      bad_acknowledgment

-- the call data of getGuard
unfoldable pub guard_call : Geth → Hash → Bytes
guard_call g rule_id =
    take 4 (to_bytes 32 (g.keccak (codes "getGuard(bytes32)"))) ++ to_bytes 32 rule_id

-- the third word of getGuard's output
unfoldable pub on_chain_commitment : Bytes → Hash
on_chain_commitment output = of_bytes (slice 64 96 output)

-- the arguments of restoreExistingPolicy, with the content of the artifact
pub record Restored : Type 0 where
  pub artifact : Option Bytes
  pub expected_text : Bytes
  pub manager_text : Bytes
  pub existing_action_text : Bytes

module _ (g : Geth) (hex : HexText) (signing : Signing) (formats : Formats) (s : Surroundings)
    (tee : Address) where
  -- the action that is resumed, or else a new one
  unfoldable pub restore_action : Bytes → Bytes → Result LiveError Hash
  restore_action existing private_bytes =
      if not (is_empty existing)
      then fail_if (not (length existing == 66) || not (has_prefix existing (codes "0x")))
          bad_arguments
        >> ok (hex.hex_to_hash existing)
      else do
        ciphertext ← or_err send_failed (s.encrypt private_bytes)
        sent ← or_err send_failed (s.send_create_policy ciphertext)
        ok sent.0

  -- restoreExistingPolicy before its action: the artifact's policy, once it is the expected one
  unfoldable pub restorable : Restored → Result LiveError (Bytes × Policy)
  restorable args = do
    fail_if (not (hex.is_hex_address args.manager_text) || not (length args.expected_text == 66))
        bad_arguments
    private_bytes ← or_err bad_artifact args.artifact
    private_policy ← or_err bad_artifact (formats.policy private_bytes)
    computed ← must_policy_commitment g private_policy
    let expected = hex.hex_to_hash args.expected_text
    fail_if (not (computed == expected)) commitment_mismatch
    output ← or_err query_failed (s.get_guard (guard_call g private_policy.rule_id))
    fail_if (ltb (length output) 96) query_failed
    fail_if (not (on_chain_commitment output == expected)) commitment_mismatch
    fail_if (leb private_policy.expires_at s.now) policy_expired
    ok (private_bytes, private_policy)

  -- restoreExistingPolicy, which gives the rule
  unfoldable pub restore_existing_policy : Restored → Result LiveError Hash
  restore_existing_policy args = do
    artifact ← restorable args
    let private_policy = artifact.1
    action_id ← restore_action args.existing_action_text artifact.0
    response ← must_result signing (s.action_result action_id) action_id tee 1
    acknowledged ←
        check_acknowledgment formats response.result_data private_policy.rule_id
          (hex.hex_to_hash args.expected_text)
    absent ← assert_private_fields_absent response.result_data private_policy
    counted ← confirm_live_policy_count s 1
    ok private_policy.rule_id
