-- ===== src/Guard/History/Evolves.antt =====
-- The state of a policy through one evaluation.
use averlock.Prelude.{
  ℕ, ◌≡◌, refl, Option, none, some, arith, ok, lookup, lookup-insert, ◌==◌, Bool-cases, inl, inr,
  ◌∙◌, ◌⊎◌, ◌<◌, ◌≤◌, Bool, ==_iff, true, false,
}
use averlock.Policy.{EventAuthorization, PolicyState}
use averlock.Snapshot.{EventSnapshot}
use averlock.Guard.State.{EvaluateGuardRequest, Calls, add64}
use averlock.Guard.Evaluate.{
  Evaluated, stamp, first_decision, authorize, check_snapshot, evaluate_state,
}

-- The decision for an event is the same; its validity may have been extended.
pub record SameDecision (a b : EventAuthorization) : Type 0 where
  pub value : b.event_value_usd18 ≡ a.event_value_usd18
  pub triggered : b.triggered ≡ a.triggered
  pub protected : b.protected_usd18 ≡ a.protected_usd18
  pub bps : b.protect_bps ≡ a.protect_bps
  pub schedule : b.schedule_id ≡ a.schedule_id

-- The policy and its commitment stay, no nonce is forgotten, and no decision is changed or lost.
pub record Evolves (v w : PolicyState) : Type 0 where
  pub policy : w.policy ≡ v.policy
  pub commitment : w.commitment ≡ v.commitment
  pub nonces : (n : ℕ) → lookup n v.used_nonces ≡ some tt → lookup n w.used_nonces ≡ some tt
  pub decisions :
      (h : ℕ) (a : EventAuthorization)
      → lookup h v.authorizations ≡ some a
      → (b : EventAuthorization) × (lookup h w.authorizations ≡ some b) × SameDecision a b

pub SameDecision-refl : (a : EventAuthorization) → SameDecision a a
SameDecision-refl a = ground arith

pub SameDecision-trans :
    (a b c : EventAuthorization) → SameDecision a b → SameDecision b c → SameDecision a c
SameDecision-trans a b c p q = ground arith

pub Evolves-refl : (v : PolicyState) → Evolves v v
Evolves-refl v = record {
  policy = refl;
  commitment = refl;
  nonces = λ n h. h;
  decisions = λ h a e. (a, e, SameDecision-refl a);
}

pub Evolves-trans : (u v w : PolicyState) → Evolves u v → Evolves v w → Evolves u w
Evolves-trans u v w p q = record {
  policy = q.policy ∙ p.policy;
  commitment = q.commitment ∙ p.commitment;
  nonces = λ n h. q.nonces n (p.nonces n h);
  decisions = λ h a e.
      let (b, found, same) = p.decisions h a e in
      let (c, found', same') = q.decisions h b found in
      (c, found', SameDecision-trans a b c same same');
}

-- the clone is changed at the request's event and nonce alone
module _ (r : EvaluateGuardRequest) (timestamp value : ℕ) where
  stamp-Evolves :
      (v w : PolicyState) (x : EventAuthorization) (refreshing : Bool)
      → w.policy ≡ v.policy
      → w.commitment ≡ v.commitment
      → w.used_nonces ≡ v.used_nonces
      → w.authorizations ≡ v.authorizations
      → ((a : EventAuthorization)
          → lookup r.event_hash v.authorizations ≡ some a
          → SameDecision a x)
      → Evolves v (stamp w r timestamp value x refreshing).state
  unfolding stamp
  stamp-Evolves v w x refreshing policy commitment nonces auths own = record {
    policy = policy;
    commitment = commitment;
    nonces = λ n h. ground (arith, nonces, lookup-insert r.nonce n tt v.used_nonces);
    decisions = λ h a e.
        let y : EventAuthorization = record x { last_expiry = add64 timestamp 600 } in
        let put = lookup-insert r.event_hash h y v.authorizations in
        elim (Bool-cases (h == r.event_hash)) [
          | inl this ↦ (
            y,
            ground (arith, put, auths),
            ground (arith, own a (rw (← (==_iff h r.event_hash).0 this) e)),
          )
          | inr other ↦ (a, ground (arith, put, auths), SameDecision-refl a)
        ];
  }

  -- The two ways in which an evaluation is authorized.
  pub authorize_cases :
      (v : PolicyState) (o : Option EventAuthorization) (e : Evaluated)
      → authorize v r timestamp value o ≡ ok e
      → ((o ≡ none) × (e ≡ first_decision v r timestamp value))
        ⊎ ((x : EventAuthorization) × (o ≡ some x)
            × (x.event_value_usd18 ≡ value)
            × (x.last_expiry < timestamp)
            × (e ≡ stamp v r timestamp value x true))
  unfolding authorize
  authorize_cases v none e h = inl (refl, cc)
  authorize_cases v (some x) e h = inr (x, refl, ground arith, ground arith, ground arith)

  first_decision-Evolves :
      (v : PolicyState)
      → lookup r.event_hash v.authorizations ≡ none
      → Evolves v (first_decision v r timestamp value).state
  unfolding first_decision
  first_decision-Evolves v fresh =
      stamp-Evolves v _ _ false refl refl refl refl (λ a e. cc (fresh, e))

  pub authorize-Evolves :
      (v : PolicyState) (e : Evaluated)
      → authorize v r timestamp value (lookup r.event_hash v.authorizations) ≡ ok e
      → Evolves v e.state
  authorize-Evolves v e h = elim (authorize_cases v (lookup r.event_hash v.authorizations) e h) [
    | inl (fresh, made) ↦ rw made (first_decision-Evolves v fresh)
    | inr (x, present, _, _, made) ↦ rw made (
        stamp-Evolves v v x true refl refl refl refl
          (λ a e'. ground (arith, SameDecision-refl x, present)))
  ]

-- What a successful evaluation has found: it was in time, its nonce was new, and the snapshot and the
-- authorization allowed it.
pub evaluate_state_lem :
    (calls : Calls) (v : PolicyState) (r : EvaluateGuardRequest) (timestamp : ℕ) (e : Evaluated)
    → evaluate_state calls v r timestamp ≡ ok e
    → (timestamp ≤ v.policy.expires_at)
      × (lookup r.nonce v.used_nonces ≡ none)
      × ((s : EventSnapshot) × (value : ℕ) × (calls.get_snapshot r.event_hash ≡ ok s)
          × (check_snapshot r.rule_id s ≡ ok value)
          × (authorize v r timestamp value (lookup r.event_hash v.authorizations) ≡ ok e))
unfolding evaluate_state
evaluate_state_lem calls v r timestamp e h = ground arith

pub evaluate_state-Evolves :
    (calls : Calls) (v : PolicyState) (r : EvaluateGuardRequest) (timestamp : ℕ) (e : Evaluated)
    → evaluate_state calls v r timestamp ≡ ok e
    → Evolves v e.state
evaluate_state-Evolves calls v r timestamp e h =
    let (s, value, _, _, authorized) = (evaluate_state_lem calls v r timestamp e h).2 in
    authorize-Evolves r timestamp value v e authorized
