-- ===== src/Policy/Normalize.antt =====
-- Which policies normalizePolicy accepts, and what it makes of them.
use averlock.Prelude.{
  ℕ, ◌^◌, ◌≤◌, ◌<◌, ◌≡◌, ◌≢◌, ◌↔◌, Bool, true, false, Bytes, arith, ok, refl, ◌∙◌,
}
use averlock.Uint256.{parse_uint256}
use averlock.Uint256.Parse.{Accepts, parse_uint256_iff}
use averlock.Policy.{Policy, NormalizedPolicy, normalize_policy}

-- The rules that a policy has to satisfy, and the normalized policy that it stands for; `Amount`
-- relates a text to the number that it denotes.
pub record Meets (Amount : Bool → Bytes → ℕ → Type 0) (p : Policy) (n : NormalizedPolicy)
    : Type 0 where
  pub rule : p.rule_id ≢ 0
  pub threshold : Amount false p.threshold_usd18 n.threshold_usd18
  pub bps : (0 < p.protect_bps) × (p.protect_bps ≤ 10_000)
  pub schedule : p.schedule_id ≡ 1
  pub max_per_event : Amount true p.max_per_event_usd18 n.max_per_event_usd18
  pub max_covers : 0 < n.max_per_event_usd18 → n.threshold_usd18 ≤ n.max_per_event_usd18
  pub expiry : p.expires_at ≢ 0
  pub same_rule : n.rule_id ≡ p.rule_id
  pub same_bps : n.protect_bps ≡ p.protect_bps
  pub same_schedule : n.schedule_id ≡ p.schedule_id
  pub same_cooldown : n.cooldown_seconds ≡ p.cooldown_seconds
  pub same_expiry : n.expires_at ≡ p.expires_at

abbrev Parses : Bool → Bytes → ℕ → Type 0
Parses allow_zero s n = parse_uint256 s allow_zero ≡ ok n

parsed : (p : Policy) (n : NormalizedPolicy) → normalize_policy p ≡ ok n → Meets Parses p n
unfolding normalize_policy
parsed p n h = ground arith

normalized : (p : Policy) (n : NormalizedPolicy) → Meets Parses p n → normalize_policy p ≡ ok n
unfolding normalize_policy
normalized p n m = ground arith

module _ {Amount Amount' : Bool → Bytes → ℕ → Type 0}
    (step : (z : Bool) (s : Bytes) (n : ℕ) → Amount z s n → Amount' z s n) where
  change : (p : Policy) (n : NormalizedPolicy) → Meets Amount p n → Meets Amount' p n
  change p n m = record {
    rule = m.rule;
    threshold = step false p.threshold_usd18 n.threshold_usd18 m.threshold;
    bps = m.bps;
    schedule = m.schedule;
    max_per_event = step true p.max_per_event_usd18 n.max_per_event_usd18 m.max_per_event;
    max_covers = m.max_covers;
    expiry = m.expiry;
    same_rule = m.same_rule;
    same_bps = m.same_bps;
    same_schedule = m.same_schedule;
    same_cooldown = m.same_cooldown;
    same_expiry = m.same_expiry;
  }

-- normalize_policy accepts a policy and returns `n` exactly when the rule is not zero, the threshold
-- is a positive uint256 in decimal, the share is 1 to 10000 basis points, the schedule is 1, the
-- maximum is a uint256 in decimal that is zero or at least the threshold, the expiry is not zero,
-- and `n` holds these amounts and the other fields unchanged.
pub normalize_policy_iff :
    (p : Policy) (n : NormalizedPolicy) → (normalize_policy p ≡ ok n) ↔ Meets Accepts p n
normalize_policy_iff p n = (
  λ h. change (λ z s m. (parse_uint256_iff s z m).0) p n (parsed p n h),
  λ h. normalized p n (change (λ z s m. (parse_uint256_iff s z m).1) p n h),
)

-- A normalized policy is within its types, with a share of at most 10000 basis points.
pub record IsValid (n : NormalizedPolicy) : Type 0 where
  pub threshold_pos : 0 < n.threshold_usd18
  pub threshold_fits : n.threshold_usd18 < 2 ^ 256
  pub bps_pos : 0 < n.protect_bps
  pub bps_le : n.protect_bps ≤ 10_000
  pub schedule_one : n.schedule_id ≡ 1
  pub max_fits : n.max_per_event_usd18 < 2 ^ 256

pub normalize_policy-IsValid :
    (p : Policy) (n : NormalizedPolicy) → normalize_policy p ≡ ok n → IsValid n
normalize_policy-IsValid p n h =
    let m = (normalize_policy_iff p n).0 h in
    record {
      threshold_pos = m.threshold.3 refl;
      threshold_fits = m.threshold.1;
      bps_pos = omega (arith, m.bps.0, m.same_bps);
      bps_le = omega (arith, m.bps.1, m.same_bps);
      schedule_one = m.same_schedule ∙ m.schedule;
      max_fits = m.max_per_event.1;
    }
