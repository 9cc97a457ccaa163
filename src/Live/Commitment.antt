-- ===== src/Live/Commitment.antt =====
-- The commitment that packages/fcc-extension/tools/cmd/run-test/main.go computes, beside that of the
-- extension server.
use averlock.Prelude.{
  ℕ, ◌^◌, ◌<◌, ◌%◌, ◌≡◌, refl, some, Bytes, Bool, arith, ok, or_err, pos, Option-cases, inl, inr,
  true, false,
}
use averlock.Ethereum.{Geth}
use averlock.Uint256.{set_string, parse_uint256}
use averlock.Policy.{
  Policy, NormalizedPolicy, normalize_policy, commitment_fields, policy_domain, policy_commitment,
}
use averlock.Live.{
  packing_failed, uint_value, uint256_of, commitment_arguments, must_policy_commitment,
}

parse_uint256-set_string :
    (s : Bytes) (z : Bool) (n : ℕ)
    → parse_uint256 s z ≡ ok n
    → (set_string s ≡ some (pos n)) × (n < 2 ^ 256)
unfolding parse_uint256
parse_uint256-set_string s z n h = (ground (arith, h), ground (arith, h))

normalize_policy-parses :
    (p : Policy) (n : NormalizedPolicy)
    → normalize_policy p ≡ ok n
    → (parse_uint256 p.threshold_usd18 false ≡ ok n.threshold_usd18)
      × (parse_uint256 p.max_per_event_usd18 true ≡ ok n.max_per_event_usd18)
      × (n.rule_id ≡ p.rule_id)
      × (n.protect_bps ≡ p.protect_bps)
      × (n.schedule_id ≡ p.schedule_id)
      × (n.cooldown_seconds ≡ p.cooldown_seconds)
      × (n.expires_at ≡ p.expires_at)
unfolding normalize_policy
normalize_policy-parses p n h = (
  ground (arith, h),
  ground (arith, h),
  ground (arith, h),
  ground (arith, h),
  ground (arith, h),
  ground (arith, h),
  ground (arith, h),
)

module _ (g : Geth) (p : Policy) (n : NormalizedPolicy) (normal : normalize_policy p ≡ ok n) where
  same_arguments :
      commitment_arguments g p (pos n.threshold_usd18) (pos n.max_per_event_usd18)
      ≡ commitment_fields g n
  unfolding commitment_arguments commitment_fields uint256_of policy_domain
  same_arguments =
      let parts = normalize_policy-parses p n normal in
      let t = (parse_uint256-set_string p.threshold_usd18 false n.threshold_usd18 parts.0).1 in
      let m =
        (parse_uint256-set_string p.max_per_event_usd18 true n.max_per_event_usd18 parts.1).1 in
      let t' : n.threshold_usd18 % 2 ^ 256 ≡ n.threshold_usd18 = ground (arith, t) in
      let m' : n.max_per_event_usd18 % 2 ^ 256 ≡ n.max_per_event_usd18 = ground (arith, m) in
      rw (t', m', parts.2, parts.3, parts.4, parts.5, parts.6) refl

  -- For a policy that the extension server accepts, the commitment that the live test computes from its
  -- texts is the one that the server computes from the amounts that it has parsed, and neither
  -- succeeds without the other.
  pub must_policy_commitment-policy_commitment :
      must_policy_commitment g p ≡ or_err packing_failed (policy_commitment g n)
  unfolding must_policy_commitment uint_value policy_commitment
  must_policy_commitment-policy_commitment =
      let parts = normalize_policy-parses p n normal in
      let t = (parse_uint256-set_string p.threshold_usd18 false n.threshold_usd18 parts.0).0 in
      let m =
        (parse_uint256-set_string p.max_per_event_usd18 true n.max_per_event_usd18 parts.1).0 in
      elim (Option-cases (g.pack (commitment_fields g n))) [
        | inl failed ↦ ground (arith, t, m, same_arguments, failed)
        | inr (bytes, packed) ↦ ground (arith, t, m, same_arguments, packed)
      ]
