-- ===== src/Tools/Consistency.antt =====
-- The gate before an availability check: packages/fcc-extension/tools/pkg/fccutils/policy_consistency.go.
use averlock.Prelude.{
  ℕ, ◌+◌, ◌-◌, ◌%◌, ◌^◌, ◌≡◌, ◌≢◌, ◌↔◌, refl, ltb, Bool, ◌||◌, Option, none, some, ◌==◌,
  if◌then◌else◌, arith, Result, ok, err,
}

-- ErrPolicyOutOfSync, with the two numbers and how far the proxy is behind or ahead
pub data ConsistencyError : Type 0 where
  behind : ℕ → ℕ → ℕ → ConsistencyError
  ahead : ℕ → ℕ → ℕ → ConsistencyError

-- policyInSync, on uint64 numbers
unfoldable pub policy_in_sync : ℕ → ℕ → Bool
policy_in_sync onchain proxy = proxy == onchain || proxy == (onchain + 1) % 2 ^ 64

-- outOfSyncError
unfoldable pub out_of_sync_error : ℕ → ℕ → ConsistencyError
out_of_sync_error onchain proxy =
    if ltb proxy onchain
    then behind proxy onchain (onchain - proxy)
    else ahead proxy onchain (proxy - onchain)

-- CheckFTDCProxyPolicyConsistency, from the answers to its two queries: `none` is a failed query, and
-- the epoch that the contract returns may be nil
unfoldable pub check_consistency : Option (Option ℕ) → Option ℕ → Result ConsistencyError (Unit {0})
unfolding policy_in_sync
check_consistency (some (some onchain)) (some proxy) =
    let epoch = onchain % 2 ^ 64 in
    if policy_in_sync epoch proxy then ok tt else err (out_of_sync_error epoch proxy)
check_consistency _ _ = ok tt

-- The gate refuses exactly when both queries have answered and the proxy's policy, a uint32, is
-- neither the epoch (in its low 64 bits) nor the one after it; a failed query never refuses.
check_consistency_iff :
    (epoch : Option (Option ℕ)) (policy : Option ℕ)
    → ((e : ConsistencyError) × (check_consistency epoch policy ≡ err e)) ↔ (
        (n : ℕ) × (p : ℕ) × (epoch ≡ some (some n))
        × (policy ≡ some p)
        × (p ≢ n % 2 ^ 64)
        × (p ≢ (n % 2 ^ 64 + 1) % 2 ^ 64))
unfolding check_consistency
check_consistency_iff none policy = (λ h. absurd (cc (h.1)), λ h. absurd (ground (arith, h)))
check_consistency_iff (some none) policy = (λ h. absurd (cc (h.1)), λ h. absurd (ground (arith, h)))
check_consistency_iff (some (some n)) none =
    (λ h. absurd (cc (h.1)), λ h. absurd (ground (arith, h)))
check_consistency_iff (some (some n)) (some p) = (
  λ h. (n, p, refl, refl, ground (arith, h.1), ground (arith, h.1)),
  λ h. (out_of_sync_error (n % 2 ^ 64) p, ground (arith, h)),
)
