-- ===== src/Guard/Sound.antt =====
-- The states of policies that processCreatePolicy and processEvaluateGuard make, and the types of
-- what they are made from.
pub mod Invariant
pub mod Handlers
pub mod Actions
pub mod Answers
use averlock.Prelude.{
  ℕ, ◌+◌, ◌%◌, ◌^◌, ◌≤◌, ◌<◌, ◌≡◌, refl, sym, ◌∙◌, Option, none, some, [], arith, Result, ok, err,
  lookup, insert, lookup-insert, inl, inr, ◌⊎◌, Bool-cases, Bool, true, false, ◌==◌, not, pos,
}
use averlock.Ethereum.{Hash}
use averlock.Decision.{magnitude}
use averlock.Policy.{PolicyState, EventAuthorization}
use averlock.Policy.Normalize.{IsValid}
use averlock.Snapshot.{EventSnapshot}
use averlock.Guard.State.{EvaluateGuardRequest, Calls, add64}
use averlock.Guard.Evaluate.{
  Evaluated, evaluate_state, check_snapshot, stamp, first_decision, not_positive,
}
use averlock.Guard.Trigger.{first_decision_lem}
use averlock.Guard.History.Evolves.{evaluate_state_lem, authorize_cases}
use averlock.Guard.Response.{IsTyped}

-- The numbers of a decision are within their Go types, and it protects at most the event's value.
pub record IsSoundAuthorization (a : EventAuthorization) : Type 0 where
  pub value_fits : a.event_value_usd18 < 2 ^ 256
  pub protected_le : a.protected_usd18 ≤ a.event_value_usd18
  pub bps_le : a.protect_bps ≤ 10_000
  pub schedule_le : a.schedule_id ≤ 1
  pub expiry_fits : a.last_expiry < 2 ^ 64

-- The policy is a valid one and each decision is sound.
pub record IsSound (v : PolicyState) : Type 0 where
  pub valid : IsValid v.policy
  pub decided :
      (h : Hash) (a : EventAuthorization)
      → lookup h v.authorizations ≡ some a
      → IsSoundAuthorization a

-- The values that the snapshot reader returns are unsigned 256-bit words.
abbrev pub AreTyped : Calls → Type 0
AreTyped calls =
    (h : Hash) (s : EventSnapshot)
    → calls.get_snapshot h ≡ ok s
    → magnitude s.event_value_usd18 < 2 ^ 256

-- A request within its Go types.
pub record IsTypedRequest (r : EvaluateGuardRequest) (timestamp : ℕ) : Type 0 where
  pub rule_fits : r.rule_id < 2 ^ 256
  pub event_fits : r.event_hash < 2 ^ 256
  pub nonce_fits : r.nonce < 2 ^ 64
  pub time_fits : timestamp < 2 ^ 64

check_snapshot_value :
    (rule : Hash) (s : EventSnapshot) (value : ℕ)
    → check_snapshot rule s ≡ ok value
    → value ≡ magnitude s.event_value_usd18
unfolding check_snapshot
check_snapshot_value rule s value h = ground arith

stamp-IsSound :
    (v w : PolicyState) (r : EvaluateGuardRequest) (timestamp value : ℕ) (x : EventAuthorization)
    (refreshing : Bool)
    → IsSound v
    → w.policy ≡ v.policy
    → w.authorizations ≡ v.authorizations
    → IsSoundAuthorization (stamp w r timestamp value x refreshing).authorization
    → IsSound (stamp w r timestamp value x refreshing).state
unfolding stamp
stamp-IsSound v w r timestamp value x refreshing sound policy auths good = record {
  valid = rw policy sound.valid;
  decided = λ h a e.
      let y = (stamp w r timestamp value x refreshing).authorization in
      let put = lookup-insert r.event_hash h y w.authorizations in
      elim (Bool-cases (h == r.event_hash)) [
        | inl own ↦
            let same : a ≡ (stamp w r timestamp value x refreshing).authorization =
              unfold stamp in ground (arith, put) in
            rw same good
        | inr other ↦ sound.decided h a (ground (arith, put, auths))
      ];
}

-- what an evaluation leaves is sound
pub record IsSoundEvaluation (v : PolicyState) (value : ℕ) (ev : Evaluated) : Type 0 where
  pub state : IsSound ev.state
  pub authorization : IsSoundAuthorization ev.authorization
  pub told_value : ev.event_value ≡ value
  pub same_value : ev.authorization.event_value_usd18 ≡ value
  pub same_policy : ev.state.policy ≡ v.policy

first_IsSound :
    (v : PolicyState) (r : EvaluateGuardRequest) (timestamp value : ℕ)
    → IsSound v
    → value < 2 ^ 256
    → IsSoundEvaluation v value (first_decision v r timestamp value)
unfolding first_decision
first_IsSound v r timestamp value sound lt = record {
  state = stamp-IsSound v _ r timestamp value _ false sound refl refl fine;
  authorization = fine;
  told_value = unfold stamp in refl;
  same_value = unfold stamp in refl;
  same_policy = unfold stamp in refl;
}
  where
    fine : IsSoundAuthorization (first_decision v r timestamp value).authorization
    fine =
        let (bound, on, off) = first_decision_lem v r timestamp value sound.valid in
        elim (Bool-cases (first_decision v r timestamp value).authorization.triggered) [
          | inl fires ↦ record {
            value_fits = unfold stamp in lt;
            protected_le = unfold stamp in bound;
            bps_le = omega (arith, (on fires).1, sound.valid.bps_le);
            schedule_le = omega (arith, (on fires).2);
            expiry_fits = unfold stamp in omega arith;
          }
          | inr quiet ↦ record {
            value_fits = unfold stamp in lt;
            protected_le = unfold stamp in bound;
            bps_le = omega (arith, (off quiet).1);
            schedule_le = omega (arith, (off quiet).2);
            expiry_fits = unfold stamp in omega arith;
          }
        ]

refreshed_IsSound :
    (v : PolicyState) (r : EvaluateGuardRequest) (timestamp value : ℕ) (x : EventAuthorization)
    → IsSound v
    → IsSoundAuthorization x
    → x.event_value_usd18 ≡ value
    → IsSoundEvaluation v value (stamp v r timestamp value x true)
refreshed_IsSound v r timestamp value x sound good same = record {
  state = stamp-IsSound v v r timestamp value x true sound refl refl fine;
  authorization = fine;
  told_value = unfold stamp in refl;
  same_value = unfold stamp in same;
  same_policy = unfold stamp in refl;
}
  where
    fine : IsSoundAuthorization (stamp v r timestamp value x true).authorization
    fine =
        unfold stamp in
        record {
          value_fits = good.value_fits;
          protected_le = good.protected_le;
          bps_le = good.bps_le;
          schedule_le = good.schedule_le;
          expiry_fits = omega arith;
        }

-- An evaluation of a sound state, on values in range, leaves a sound state and a sound decision.
pub evaluate_state-IsSound :
    (calls : Calls) (v : PolicyState) (r : EvaluateGuardRequest) (timestamp : ℕ) (ev : Evaluated)
    → AreTyped calls
    → IsSound v
    → evaluate_state calls v r timestamp ≡ ok ev
    → IsSoundEvaluation v ev.event_value ev
evaluate_state-IsSound calls v r timestamp ev typed sound h =
    let (s, value, read, checked, authorized) = (evaluate_state_lem calls v r timestamp ev h).2 in
    let lt : value < 2 ^ 256 =
      rw (check_snapshot_value r.rule_id s value checked) (typed r.event_hash s read) in
    elim (authorize_cases r timestamp value v (lookup r.event_hash v.authorizations) ev
      authorized) [
        | inl (fresh, made) ↦ rw made (told_again (first_IsSound v r timestamp value sound lt))
        | inr (x, present, same, _, made) ↦ rw made (
            told_again (
              refreshed_IsSound v r timestamp value x sound (sound.decided r.event_hash x present)
                same))
      ]
  where
    told_again :
        {value : ℕ} {e : Evaluated}
        → IsSoundEvaluation v value e
        → IsSoundEvaluation v e.event_value e
    told_again good = record {
      state = good.state;
      authorization = good.authorization;
      told_value = refl;
      same_value = good.same_value ∙ sym good.told_value;
      same_policy = good.same_policy;
    }

-- so that it is answered
pub evaluate_state-IsTyped :
    (calls : Calls) (v : PolicyState) (r : EvaluateGuardRequest) (timestamp : ℕ) (ev : Evaluated)
    → AreTyped calls
    → IsSound v
    → IsTypedRequest r timestamp
    → evaluate_state calls v r timestamp ≡ ok ev
    → IsTyped r timestamp ev
evaluate_state-IsTyped calls v r timestamp ev typed sound within h =
    let good = evaluate_state-IsSound calls v r timestamp ev typed sound h in
    let a = good.authorization in
    record {
      rule_fits = within.rule_fits;
      event_fits = within.event_fits;
      nonce_fits = within.nonce_fits;
      time_fits = within.time_fits;
      value_fits = omega (arith, good.same_value, a.value_fits);
      protected_fits = omega (arith, a.value_fits, a.protected_le);
      bps_fits = omega (arith, a.bps_le);
      schedule_fits = omega (arith, a.schedule_le);
      expiry_fits = a.expiry_fits;
    }
