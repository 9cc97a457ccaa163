-- ===== src/Policy/Tests.antt =====
-- Policies at concrete values.
use averlock.Prelude.{◌≡◌, ◌↔◌, ◌⊎◌, refl, some, ok, codes, arith}
use averlock.Ethereum.{Hash}
use averlock.Ethereum.Static.{words, words-IsGeth, fold_hash, pack_words}
use averlock.Decision.Binding.{Collision}
use averlock.Policy.{
  Policy, NormalizedPolicy, normalize_policy, commitment_fields, policy_commitment,
}
use averlock.Policy.Normalize.{Meets, normalize_policy_iff}
use averlock.Policy.Commitment.{IsTyped, policy_commitment-binds}
use averlock.Uint256.Parse.{Accepts}

abbrev wire : Policy
wire = record {
  rule_id = 7;
  threshold_usd18 = codes "10";
  protect_bps = 5_000;
  schedule_id = 1;
  max_per_event_usd18 = codes "0";
  cooldown_seconds = 60;
  expires_at = 1_000;
}

abbrev normal : NormalizedPolicy
normal = record {
  rule_id = 7;
  threshold_usd18 = 10;
  protect_bps = 5_000;
  schedule_id = 1;
  max_per_event_usd18 = 0;
  cooldown_seconds = 60;
  expires_at = 1_000;
}

normalize_policy_iff_example : (normalize_policy wire ≡ ok normal) ↔ Meets Accepts wire normal
normalize_policy_iff_example = normalize_policy_iff wire normal

normal-IsTyped : IsTyped normal
normal-IsTyped = record {
  rule_fits = omega arith;
  threshold_fits = omega arith;
  bps_fits = omega arith;
  schedule_fits = omega arith;
  max_fits = omega arith;
  cooldown_fits = omega arith;
  expiry_fits = omega arith;
}

abbrev commitment : Hash
commitment = fold_hash (pack_words (commitment_fields words normal))

committed : policy_commitment words normal ≡ some commitment
unfolding policy_commitment
committed = refl

policy_commitment-binds_example :
    Collision words (commitment_fields words normal) (commitment_fields words normal)
    ⊎ (normal ≡ normal)
policy_commitment-binds_example =
    policy_commitment-binds words words-IsGeth normal normal commitment normal-IsTyped
      normal-IsTyped committed committed
