-- ===== src/Policy.antt =====
-- The private policy of packages/fcc-extension/go/internal/extension/engine.go and the wire types of
-- go/pkg/types/types.go: validation and the commitment to a policy.
pub mod Normalize
pub mod Commitment
mod Tests
use averlock.Prelude.{
  ℕ, ◌*◌, ◌^◌, ◌<◌, Bool, true, false, ◌||◌, ◌&&◌, not, Option, List, [], ◌∷◌, Bytes, codes, ltb,
  leb, ◌==◌, if◌then◌else◌, Result, ok, err, wrap, or_err, fail_if, ◌>>=◌, ◌>>◌, Map, some, pos,
}
use mathlib.Core.Option
use averlock.Uint256.{UintError, parse_uint256, default_zero}
use averlock.Ethereum.{Hash, AbiValue, bytes32, uint, Geth}
use averlock.Decision.{FccDecision, DecisionError, decision_domain, result_hash}

-- guardtypes.Policy; amounts are decimal texts
pub record Policy : Type 0 where
  pub rule_id : Hash
  pub threshold_usd18 : Bytes
  pub protect_bps : ℕ
  pub schedule_id : ℕ
  pub max_per_event_usd18 : Bytes
  pub cooldown_seconds : ℕ
  pub expires_at : ℕ

-- normalizedPolicy; its big integers come from parse_uint256, so they are numbers
pub record NormalizedPolicy : Type 0 where
  pub rule_id : Hash
  pub threshold_usd18 : ℕ
  pub protect_bps : ℕ
  pub schedule_id : ℕ
  pub max_per_event_usd18 : ℕ
  pub cooldown_seconds : ℕ
  pub expires_at : ℕ

-- eventAuthorization
pub record EventAuthorization : Type 0 where
  pub event_value_usd18 : ℕ
  pub triggered : Bool
  pub protected_usd18 : ℕ
  pub protect_bps : ℕ
  pub schedule_id : ℕ
  pub last_expiry : ℕ

-- policyState
pub record PolicyState : Type 0 where
  pub policy : NormalizedPolicy
  pub commitment : Hash
  pub last_triggered : ℕ
  pub authorizations : Map EventAuthorization
  pub used_nonces : Map (Unit {0})

-- guardtypes.EvaluationResult
pub record EvaluationResult : Type 0 where
  pub rule_id : Hash
  pub event_hash : Hash
  pub triggered : Bool
  pub protected_usd18 : Bytes
  pub protect_bps : ℕ
  pub schedule_id : ℕ
  pub event_value_usd18 : Bytes
  pub evaluated_at : ℕ
  pub nonce : ℕ
  pub result_expiry : ℕ
  pub result_hash : Hash

abbrev pub schedule_thirty_day_linear : ℕ
schedule_thirty_day_linear = 1

abbrev pub coston2_chain_id : ℕ
coston2_chain_id = 114

pub data PolicyError : Type 0 where
  zero_rule_id : PolicyError
  bad_threshold : UintError → PolicyError
  bad_protect_bps : PolicyError
  unsupported_schedule : ℕ → PolicyError
  bad_max_per_event : UintError → PolicyError
  max_below_threshold : PolicyError
  zero_expires_at : PolicyError

-- normalizePolicy
unfoldable pub normalize_policy : Policy → Result PolicyError NormalizedPolicy
normalize_policy policy = do
  fail_if (policy.rule_id == 0) zero_rule_id
  threshold ← wrap bad_threshold (parse_uint256 policy.threshold_usd18 false)
  fail_if (policy.protect_bps == 0 || ltb 10_000 policy.protect_bps) bad_protect_bps
  fail_if (not (policy.schedule_id == schedule_thirty_day_linear))
      (unsupported_schedule policy.schedule_id)
  max_value ← wrap bad_max_per_event (parse_uint256 policy.max_per_event_usd18 true)
  fail_if (ltb 0 max_value && ltb max_value threshold) max_below_threshold
  fail_if (policy.expires_at == 0) zero_expires_at
  ok (record {
    rule_id = policy.rule_id;
    threshold_usd18 = threshold;
    protect_bps = policy.protect_bps;
    schedule_id = policy.schedule_id;
    max_per_event_usd18 = max_value;
    cooldown_seconds = policy.cooldown_seconds;
    expires_at = policy.expires_at;
  })

pub data ResultHashError : Type 0 where
  bad_amount : UintError → ResultHashError
  bad_decision : DecisionError → ResultHashError

module _ (g : Geth) where
  unfoldable pub policy_domain : Hash
  policy_domain = g.keccak (codes "AVERLOCK_POLICY_V1")

  -- the arguments that policyCommitment packs
  unfoldable pub commitment_fields : NormalizedPolicy → List AbiValue
  commitment_fields policy =
      bytes32 policy_domain
      ∷ bytes32 policy.rule_id
      ∷ uint 256 policy.threshold_usd18
      ∷ uint 16 policy.protect_bps
      ∷ uint 32 policy.schedule_id
      ∷ uint 256 policy.max_per_event_usd18
      ∷ uint 64 policy.cooldown_seconds
      ∷ uint 64 policy.expires_at
      ∷ []

  -- policyCommitment; `none` is a packing error
  unfoldable pub policy_commitment : NormalizedPolicy → Option Hash
  policy_commitment policy = Option.map g.keccak (g.pack (commitment_fields policy))

  -- the decision that evaluationResultHash hashes
  unfoldable pub decision_of : EvaluationResult → ℕ → ℕ → FccDecision
  decision_of result protected event_value = record {
    domain = decision_domain g;
    rule_id = result.rule_id;
    event_hash = result.event_hash;
    triggered = result.triggered;
    protected_usd18 = some (pos protected);
    protect_bps = result.protect_bps;
    schedule_id = result.schedule_id;
    event_value_usd18 = some (pos event_value);
    evaluated_at = result.evaluated_at;
    nonce = some (pos result.nonce);
    result_expiry = result.result_expiry;
  }

  -- evaluationResultHash
  unfoldable pub evaluation_result_hash : EvaluationResult → Result ResultHashError Hash
  unfolding decision_of
  evaluation_result_hash result = do
    protected ← wrap bad_amount (parse_uint256 (default_zero result.protected_usd18) true)
    event_value ← wrap bad_amount (parse_uint256 (default_zero result.event_value_usd18) true)
    wrap bad_decision
        (result_hash g (some (pos coston2_chain_id)) (decision_of result protected event_value))
