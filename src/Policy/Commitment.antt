-- ===== src/Policy/Commitment.antt =====
-- The hash of policyCommitment and the fields that it is made from.
use averlock.Prelude.{◌^◌, ◌<◌, ◌≡◌, ◌⊎◌, inl, inr, some, arith, refl, codes}
use averlock.Ethereum.{Hash, Geth, IsGeth, AllInRange}
use averlock.Decision.Binding.{Collision, same_values}
use averlock.Policy.{NormalizedPolicy, policy_domain, commitment_fields, policy_commitment}

-- Every field is within its Go type.
pub record IsTyped (n : NormalizedPolicy) : Type 0 where
  pub rule_fits : n.rule_id < 2 ^ 256
  pub threshold_fits : n.threshold_usd18 < 2 ^ 256
  pub bps_fits : n.protect_bps < 2 ^ 16
  pub schedule_fits : n.schedule_id < 2 ^ 32
  pub max_fits : n.max_per_event_usd18 < 2 ^ 256
  pub cooldown_fits : n.cooldown_seconds < 2 ^ 64
  pub expiry_fits : n.expires_at < 2 ^ 64

module _ (g : Geth) (ax : IsGeth g) where
  commitment_fields-AllInRange :
      (n : NormalizedPolicy) → IsTyped n → AllInRange (commitment_fields g n)
  unfolding commitment_fields policy_domain
  commitment_fields-AllInRange n t = grind (arith, ax.keccak-lt (codes "AVERLOCK_POLICY_V1"))

  pub policy_commitment_lem :
      (n : NormalizedPolicy)
      → IsTyped n
      → policy_commitment g n ≡ some (g.keccak (ax.packed (commitment_fields g n)))
  unfolding policy_commitment
  policy_commitment_lem n t =
      rw (ax.pack_total (commitment_fields g n) (commitment_fields-AllInRange n t)) refl

  fields_determine :
      (n m : NormalizedPolicy) → commitment_fields g n ≡ commitment_fields g m → n ≡ m
  unfolding commitment_fields
  fields_determine n m e = ground arith

  -- Two policies whose fields are within their Go types and that have one commitment are the same
  -- policy, in every field, or else show a collision of Keccak-256 on the very bytes that
  -- policyCommitment packs for the two: these are different and have one hash.
  pub policy_commitment-binds :
      (n m : NormalizedPolicy) (h : Hash)
      → IsTyped n
      → IsTyped m
      → policy_commitment g n ≡ some h
      → policy_commitment g m ≡ some h
      → Collision g (commitment_fields g n) (commitment_fields g m) ⊎ (n ≡ m)
  policy_commitment-binds n m h tn tm en em =
      let same =
        same_values g ax (commitment_fields g n) (commitment_fields g m)
          (commitment_fields-AllInRange n tn) (commitment_fields-AllInRange m tm)
          (unfold commitment_fields in refl)
          (cc (en, em, policy_commitment_lem n tn, policy_commitment_lem m tm)) in
      elim same [ inl broken ↦ inl broken | inr fields ↦ inr (fields_determine n m fields) ]
