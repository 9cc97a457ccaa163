-- ===== src/Guard/Response.antt =====
-- The response of processEvaluateGuard, from the EvaluationResult to the encoded decision.
use averlock.Prelude.{
  ℕ, ◌^◌, ◌<◌, ◌≡◌, refl, true, some, Bytes, arith, ok, pos, if◌then◌else◌, [], wrap, length, ap,
  Bool-cases, inl, inr,
}
use averlock.Uint256.{default_zero, parse_uint256}
use averlock.Uint256.RoundTrip.{parse_uint256-to_string, default_zero-to_string}
use averlock.Ethereum.{Hash, Geth, IsGeth}
use averlock.Decision.{FccDecision, decision_domain, decode, hash_fields}
use averlock.Decision.Codec.{IsWellFormed, decode-encode}
use averlock.Decision.Binding.{result_hash_lem}
use averlock.Policy.{EventAuthorization, bad_decision, evaluation_result_hash, decision_of}
use averlock.Guard.State.{EvaluateGuardRequest}
use averlock.Guard.Evaluate.{Evaluated, evaluation_result, encode_response, response_decision}

-- Every number of a request and of an evaluation is within its Go type.
pub record IsTyped (r : EvaluateGuardRequest) (timestamp : ℕ) (ev : Evaluated) : Type 0 where
  pub rule_fits : r.rule_id < 2 ^ 256
  pub event_fits : r.event_hash < 2 ^ 256
  pub nonce_fits : r.nonce < 2 ^ 64
  pub time_fits : timestamp < 2 ^ 64
  pub value_fits : ev.event_value < 2 ^ 256
  pub protected_fits : ev.authorization.protected_usd18 < 2 ^ 256
  pub bps_fits : ev.authorization.protect_bps < 2 ^ 16
  pub schedule_fits : ev.authorization.schedule_id < 2 ^ 32
  pub expiry_fits : ev.authorization.last_expiry < 2 ^ 64

zero_text : parse_uint256 (default_zero []) true ≡ ok 0
unfolding parse_uint256 default_zero
zero_text = refl

-- what is told of an authorization: the amount, the share and the schedule only on a trigger
abbrev pub told : EventAuthorization → ℕ → ℕ
told a n = if a.triggered then n else 0

module _ (g : Geth) where
  -- The decision that a response stands for.
  unfoldable pub signed_decision : EvaluateGuardRequest → ℕ → Evaluated → FccDecision
  signed_decision r timestamp ev =
      let a = ev.authorization in
      record {
        domain = decision_domain g;
        rule_id = r.rule_id;
        event_hash = r.event_hash;
        triggered = a.triggered;
        protected_usd18 = some (pos (told a a.protected_usd18));
        protect_bps = told a a.protect_bps;
        schedule_id = told a a.schedule_id;
        event_value_usd18 = some (pos ev.event_value);
        evaluated_at = timestamp;
        nonce = some (pos r.nonce);
        result_expiry = a.last_expiry;
      }

  module _ (ax : IsGeth g) (r : EvaluateGuardRequest) (timestamp : ℕ) (ev : Evaluated)
      (typed : IsTyped r timestamp ev) where
    told-lt : (n m : ℕ) → 0 < m → n < m → told ev.authorization n < m
    told-lt n m p lt = ground arith

    signed-IsWellFormed : IsWellFormed g (signed_decision r timestamp ev)
    unfolding signed_decision
    signed-IsWellFormed = record {
      in_domain = refl;
      rule_fits = typed.rule_fits;
      event_fits = typed.event_fits;
      protected = (
        told ev.authorization ev.authorization.protected_usd18,
        refl,
        told-lt _ _ (omega arith) typed.protected_fits,
      );
      bps_fits = told-lt _ _ (omega arith) typed.bps_fits;
      schedule_fits = told-lt _ _ (omega arith) typed.schedule_fits;
      event_value = (ev.event_value, refl, typed.value_fits);
      at_fits = typed.time_fits;
      nonce_fits = (r.nonce, refl, omega (arith, typed.nonce_fits));
      expiry_fits = typed.expiry_fits;
    }

    -- the two texts of the result are read back
    protected_text :
        parse_uint256 (default_zero (evaluation_result r timestamp ev).protected_usd18) true
        ≡ ok (told ev.authorization ev.authorization.protected_usd18)
    unfolding evaluation_result
    protected_text =
        let n = ev.authorization.protected_usd18 in
        elim (Bool-cases ev.authorization.triggered) [
          | inl on ↦ rw on (
              ground
                (arith, default_zero-to_string n, parse_uint256-to_string n typed.protected_fits))
          | inr off ↦ rw off zero_text
        ]

    value_text :
        parse_uint256 (default_zero (evaluation_result r timestamp ev).event_value_usd18) true
        ≡ ok ev.event_value
    unfolding evaluation_result
    value_text = rw default_zero-to_string (parse_uint256-to_string ev.event_value typed.value_fits)

    same_decision :
        decision_of g
          (evaluation_result r timestamp ev)
          (told ev.authorization ev.authorization.protected_usd18)
          ev.event_value
        ≡ signed_decision r timestamp ev
    unfolding decision_of evaluation_result signed_decision
    same_decision = refl

    same_response :
        response_decision g
          (evaluation_result r timestamp ev)
          (told ev.authorization ev.authorization.protected_usd18)
          ev.event_value
        ≡ signed_decision r timestamp ev
    unfolding response_decision evaluation_result signed_decision
    same_response = refl

    hash_text : (h : Hash) × (evaluation_result_hash g (evaluation_result r timestamp ev) ≡ ok h)
    unfolding evaluation_result_hash
    hash_text =
        let d = signed_decision r timestamp ev in
        (
          g.keccak (ax.packed (hash_fields g (some (pos 114)) d)),
          rw (protected_text, value_text, same_decision)
              (ap (wrap bad_decision)
                (result_hash_lem g ax 114 d (omega arith) (omega arith) signed-IsWellFormed)),
        )

    -- A typed evaluation is answered, with 352 bytes that decode to the signed decision.
    pub encode_response-decode :
        (bytes : Bytes) × (encode_response g r timestamp ev ≡ ok bytes)
        × (length bytes ≡ 352)
        × (decode g bytes ≡ ok (signed_decision r timestamp ev))
    unfolding encode_response
    encode_response-decode =
        let (h, hashed) = hash_text in
        let (bytes, encoded, size, decoded) =
          decode-encode g ax (signed_decision r timestamp ev) signed-IsWellFormed in
        (bytes, rw (hashed, protected_text) (ground (arith, same_response, encoded)), size, decoded)
