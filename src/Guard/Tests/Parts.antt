-- ===== src/Guard/Tests/Parts.antt =====
-- The parts of a guard at concrete values.
use averlock.Prelude.{◌+◌, ◌*◌, ◌/◌, ◌%◌, ◌^◌, ◌≤◌, ◌<◌, ◌≡◌, ◌↔◌, refl, true, false, [], arith}
use averlock.Policy.{NormalizedPolicy, PolicyState}
use averlock.Policy.Normalize.{IsValid}
use averlock.Guard.State.{EvaluateGuardRequest, add64}
use averlock.Guard.Evaluate.{should_trigger, first_decision}
use averlock.Guard.Trigger.{should_trigger_iff, cooldown_wraps, first_decision_lem}

abbrev policy : NormalizedPolicy
policy = record {
  rule_id = 7;
  threshold_usd18 = 10;
  protect_bps = 5_000;
  schedule_id = 1;
  max_per_event_usd18 = 0;
  cooldown_seconds = 60;
  expires_at = 1_000;
}

policy-IsValid : IsValid policy
policy-IsValid = record {
  threshold_pos = omega arith;
  threshold_fits = omega arith;
  bps_pos = omega arith;
  bps_le = omega arith;
  schedule_one = refl;
  max_fits = omega arith;
}

abbrev state : PolicyState
state = record {
  policy = policy;
  commitment = 1;
  last_triggered = 0;
  authorizations = [];
  used_nonces = [];
}

abbrev request : EvaluateGuardRequest
request = record { rule_id = 7; event_hash = 9; nonce = 1 }

should_trigger_iff_example :
    (should_trigger policy 50 100 21 ≡ true)
    ↔ ((10 < 21) × (0 < 0 → 21 ≤ 0) × (0 < 50 → (50 + 60) % 2 ^ 64 ≤ 100))
should_trigger_iff_example = should_trigger_iff policy 50 100 21

-- a cooldown of 2 ^ 64 - 1 seconds
cooldown_wraps_example :
    (add64 50 0xFFFFFFFFFFFFFFFF < 50)
    × (should_trigger (record policy { cooldown_seconds = 0xFFFFFFFFFFFFFFFF }) 50 51 21
        ≡ should_trigger (record policy { cooldown_seconds = 0 }) 50 51 21)
cooldown_wraps_example =
    cooldown_wraps (record policy { cooldown_seconds = 0xFFFFFFFFFFFFFFFF }) 50 51 21 (omega arith)
      (omega arith) (omega arith) (omega arith)

first_decision_lem_example :
    let e = first_decision state request 100 21 in
    let a = e.authorization in
    (a.protected_usd18 ≤ 21)
    × (a.triggered ≡ true
        → (a.protected_usd18 ≡ 21 * 5_000 / 10_000)
          × (a.protect_bps ≡ 5_000)
          × (a.schedule_id ≡ 1)
          × (e.state.last_triggered ≡ 100))
    × (a.triggered ≡ false
        → (a.protected_usd18 ≡ 0)
          × (a.protect_bps ≡ 0)
          × (a.schedule_id ≡ 0)
          × (e.state.last_triggered ≡ 0))
first_decision_lem_example = first_decision_lem state request 100 21 policy-IsValid
