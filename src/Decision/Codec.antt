-- ===== src/Decision/Codec.antt =====
-- Encoding and decoding of decisions.
use averlock.Prelude.{
  ℕ, ◌^◌, ◌<◌, ◌≡◌, refl, false, some, Bytes, length, bytes_eq→eq, bytes_eq_refl, arith, ok, pos,
  codes, ◌∙◌, inl, inr, Result-cases,
}
use averlock.Ethereum.{Geth, IsGeth, AllInRange, types_of}
use averlock.Decision.{
  BigInt, FccDecision, bad_uint256, magnitude, fields, from_fields, decision_domain, validate,
  encode, decode, encoded_length, decision_abi,
}

-- a `*big.Int` that is a uint256
abbrev pub IsUint256 : BigInt → Type 0
IsUint256 b = (n : ℕ) × (b ≡ some (pos n)) × (n < 2 ^ 256)

-- Every field is within its Go type, and the big integers are uint256.
pub record IsWellFormed (g : Geth) (d : FccDecision) : Type 0 where
  pub in_domain : d.domain ≡ decision_domain g
  pub rule_fits : d.rule_id < 2 ^ 256
  pub event_fits : d.event_hash < 2 ^ 256
  pub protected : IsUint256 d.protected_usd18
  pub bps_fits : d.protect_bps < 2 ^ 16
  pub schedule_fits : d.schedule_id < 2 ^ 32
  pub event_value : IsUint256 d.event_value_usd18
  pub at_fits : d.evaluated_at < 2 ^ 64
  pub nonce_fits : IsUint256 d.nonce
  pub expiry_fits : d.result_expiry < 2 ^ 64

good_uint256 : (b : BigInt) → IsUint256 b → bad_uint256 b ≡ false
unfolding bad_uint256
good_uint256 b (n, e, lt) = rw e (ground arith)

pub magnitude_lem : (b : BigInt) → IsUint256 b → some (pos (magnitude b)) ≡ b
unfolding magnitude
magnitude_lem b (n, e, lt) = rw e refl

pub magnitude_lt : (b : BigInt) → IsUint256 b → magnitude b < 2 ^ 256
unfolding magnitude
magnitude_lt b (n, e, lt) = rw e lt

module _ (g : Geth) (ax : IsGeth g) where
  pub validate-IsWellFormed : (d : FccDecision) → IsWellFormed g d → validate g d ≡ ok tt
  unfolding validate
  validate-IsWellFormed d w =
      rw (good_uint256 _ w.protected, good_uint256 _ w.event_value, good_uint256 _ w.nonce_fits)
        (ground (arith, w.in_domain))

  fields-AllInRange : (d : FccDecision) → IsWellFormed g d → AllInRange (fields d)
  unfolding fields decision_domain
  fields-AllInRange d w = grind (
    arith,
    w.in_domain,
    ax.keccak-lt (codes "AVERLOCK_GUARD_RESULT_V2"),
    magnitude_lt d.protected_usd18 w.protected,
    magnitude_lt d.event_value_usd18 w.event_value,
    magnitude_lt d.nonce w.nonce_fits,
  )

  from_fields-fields : (d : FccDecision) → IsWellFormed g d → from_fields (fields d) ≡ some d
  unfolding fields from_fields
  from_fields-fields d w = cc (
    magnitude_lem d.protected_usd18 w.protected,
    magnitude_lem d.event_value_usd18 w.event_value,
    magnitude_lem d.nonce w.nonce_fits,
  )

  types_of-fields : (d : FccDecision) → types_of (fields d) ≡ decision_abi
  unfolding fields
  types_of-fields d = refl

  encode-IsWellFormed :
      (d : FccDecision) → IsWellFormed g d → encode g d ≡ ok (ax.packed (fields d))
  unfolding encode
  encode-IsWellFormed d w =
      rw (validate-IsWellFormed d w, ax.pack_total (fields d) (fields-AllInRange d w)) refl

  length-encoded : (d : FccDecision) → length (ax.packed (fields d)) ≡ encoded_length
  length-encoded d = ax.length-packed (fields d) ∙ unfold fields in refl

  decode-packed : (d : FccDecision) → IsWellFormed g d → decode g (ax.packed (fields d)) ≡ ok d
  unfolding decode
  decode-packed d w = ground (
    arith,
    length-encoded d,
    ax.unpack-packed (fields d) (fields-AllInRange d w),
    types_of-fields d,
    from_fields-fields d w,
    validate-IsWellFormed d w,
    encode-IsWellFormed d w,
    bytes_eq_refl (ax.packed (fields d)),
  )

  -- Every decision in the decision domain whose numbers are within their types is encoded in 352
  -- bytes that decode to it.
  pub decode-encode :
      (d : FccDecision)
      → IsWellFormed g d
      → (bytes : Bytes) × (encode g d ≡ ok bytes) × (length bytes ≡ 352) × (decode g bytes ≡ ok d)
  decode-encode d w =
      (ax.packed (fields d), encode-IsWellFormed d w, length-encoded d, decode-packed d w)

module _ (g : Geth) where
  -- A decoded decision encodes to the very bytes that it was decoded from: 352 bytes, in the
  -- decision domain.
  pub encode-decode :
      (bytes : Bytes) (d : FccDecision)
      → decode g bytes ≡ ok d
      → (encode g d ≡ ok bytes) × (length bytes ≡ 352) × (d.domain ≡ decision_domain g)
  unfolding decode validate
  encode-decode bytes d h = elim (Result-cases (encode g d)) [
    | inl (b, e) ↦ ground (arith, bytes_eq→eq b bytes)
    | inr (x, e) ↦ ground arith
  ]

  -- No two byte strings decode to the same decision.
  pub decode-injective :
      (b b' : Bytes) (d : FccDecision) → decode g b ≡ ok d → decode g b' ≡ ok d → b ≡ b'
  decode-injective b b' d h h' = cc ((encode-decode b d h).0, (encode-decode b' d h').0)
