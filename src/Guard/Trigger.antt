-- ===== src/Guard/Trigger.antt =====
-- When an event triggers, and what a first decision protects.
use averlock.Prelude.{
  ℕ, ◌+◌, ◌*◌, ◌/◌, ◌%◌, ◌^◌, ◌≤◌, ◌<◌, ◌≡◌, ◌↔◌, true, false, arith, Bool-cases, inl, inr,
}
use averlock.Policy.{NormalizedPolicy, PolicyState}
use averlock.Policy.Normalize.{IsValid}
use averlock.Guard.State.{EvaluateGuardRequest, add64}
use averlock.Guard.Evaluate.{should_trigger, stamp, first_decision}

-- An event triggers exactly when its value is above the threshold, is not above a maximum that is
-- set, and the time has reached the uint64 sum of the last trigger and the cooldown, if there was a
-- trigger.
pub should_trigger_iff :
    (p : NormalizedPolicy) (last timestamp value : ℕ)
    → (should_trigger p last timestamp value ≡ true) ↔ (
        (p.threshold_usd18 < value)
        × (0 < p.max_per_event_usd18 → value ≤ p.max_per_event_usd18)
        × (0 < last → (last + p.cooldown_seconds) % 2 ^ 64 ≤ timestamp))
unfolding should_trigger
should_trigger_iff p last timestamp value = (λ h. ground arith, λ h. ground arith)

-- If a last trigger and a cooldown, each a uint64, add up to 2 ^ 64 or more, their uint64 sum wraps to
-- a time before the last trigger, and from the last trigger on the policy decides as one with no cooldown.
pub cooldown_wraps :
    (p : NormalizedPolicy) (last timestamp value : ℕ)
    → p.cooldown_seconds < 2 ^ 64
    → last < 2 ^ 64
    → last ≤ timestamp
    → 2 ^ 64 ≤ last + p.cooldown_seconds
    → (add64 last p.cooldown_seconds < last)
      × (should_trigger p last timestamp value
          ≡ should_trigger (record p { cooldown_seconds = 0 }) last timestamp value)
unfolding should_trigger
cooldown_wraps p last timestamp value fits last_fits later wraps = (omega arith, ground arith)

share_le : (value bps : ℕ) → bps ≤ 10_000 → value * bps / 10_000 ≤ value
share_le value bps h = let scaled : value * bps ≤ value * 10_000 = grind arith in omega arith

-- The first decision for an event under a valid policy: what is protected is the policy's share of
-- the value, rounded down, and at most the value, if the event triggers, and nothing otherwise; the
-- share and the schedule are told only on a trigger, and only a trigger moves the time of the last
-- trigger.
pub first_decision_lem :
    (v : PolicyState) (r : EvaluateGuardRequest) (timestamp value : ℕ)
    → IsValid v.policy
    → let e = first_decision v r timestamp value in
      let a = e.authorization in
      (a.protected_usd18 ≤ value)
      × (a.triggered ≡ true
          → (a.protected_usd18 ≡ value * v.policy.protect_bps / 10_000)
            × (a.protect_bps ≡ v.policy.protect_bps)
            × (a.schedule_id ≡ 1)
            × (e.state.last_triggered ≡ timestamp))
      × (a.triggered ≡ false
          → (a.protected_usd18 ≡ 0)
            × (a.protect_bps ≡ 0)
            × (a.schedule_id ≡ 0)
            × (e.state.last_triggered ≡ v.last_triggered))
unfolding first_decision stamp
first_decision_lem v r timestamp value valid =
    let bound = share_le value v.policy.protect_bps valid.bps_le in
    elim (Bool-cases (should_trigger v.policy v.last_triggered timestamp value)) [
      | inl on ↦ ground (arith, bound)
      | inr off ↦ ground arith
    ]
