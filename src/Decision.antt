-- ===== src/Decision.antt =====
-- packages/fcc-extension/go/pkg/decision/codec.go: the decision that the extension signs, its ABI
-- encoding and its hash. The packing of values is go-ethereum's (the parameter `g`).
pub mod Codec
pub mod Binding
mod Tests
use averlock.Prelude.{
  ℕ, ◌*◌, ◌^◌, Bool, true, false, ◌||◌, not, Option, none, some, List, [], ◌∷◌, Bytes, codes,
  length, bytes_eq, ◌==◌, if◌then◌else◌, Result, ok, err, or_err, fail_if, ◌>>=◌, ◌>>◌, ℤ, pos,
  is_neg, is_nonpos, abs,
}
use averlock.Uint256.{fits_uint256}
use averlock.Ethereum.{
  Hash, AbiValue, bytes32, boolean, uint, AbiType, bytes32_type, bool_type, uint_type, Geth,
}

-- a `*big.Int`, which may be nil
abbrev pub BigInt : Type 0
BigInt = Option ℤ

pub data DecisionError : Type 0 where
  unexpected_domain : DecisionError
  not_uint256 : DecisionError
  packing : DecisionError
  bad_length : DecisionError
  unpacking : DecisionError
  bad_type : DecisionError
  non_canonical : DecisionError
  bad_chain_id : DecisionError

abbrev pub encoded_length : ℕ
encoded_length = 11 * 32

pub record FccDecision : Type 0 where
  pub domain : Hash
  pub rule_id : Hash
  pub event_hash : Hash
  pub triggered : Bool
  pub protected_usd18 : BigInt
  pub protect_bps : ℕ
  pub schedule_id : ℕ
  pub event_value_usd18 : BigInt
  pub evaluated_at : ℕ
  pub nonce : BigInt
  pub result_expiry : ℕ

abbrev pub decision_abi : List AbiType
decision_abi =
    bytes32_type
    ∷ bytes32_type
    ∷ bytes32_type
    ∷ bool_type
    ∷ uint_type 256
    ∷ uint_type 16
    ∷ uint_type 32
    ∷ uint_type 256
    ∷ uint_type 64
    ∷ uint_type 256
    ∷ uint_type 64
    ∷ []

-- `value == nil || value.Sign() < 0 || value.BitLen() > 256`
unfoldable pub bad_uint256 : BigInt → Bool
bad_uint256 none = true
bad_uint256 (some x) = is_neg x || not (fits_uint256 x)

-- the number that Pack writes for a validated value
unfoldable pub magnitude : BigInt → ℕ
magnitude none = 0
magnitude (some x) = abs x

-- the arguments of `decisionABI.Pack`
unfoldable pub fields : FccDecision → List AbiValue
unfolding magnitude
fields d =
    bytes32 d.domain
    ∷ bytes32 d.rule_id
    ∷ bytes32 d.event_hash
    ∷ boolean d.triggered
    ∷ uint 256 (magnitude d.protected_usd18)
    ∷ uint 16 d.protect_bps
    ∷ uint 32 d.schedule_id
    ∷ uint 256 (magnitude d.event_value_usd18)
    ∷ uint 64 d.evaluated_at
    ∷ uint 256 (magnitude d.nonce)
    ∷ uint 64 d.result_expiry
    ∷ []

-- the type assertions of Decode; a failing one panics, which is `none`
unfoldable pub from_fields : List AbiValue → Option FccDecision
from_fields
      (bytes32 domain
        ∷ bytes32 rule
        ∷ bytes32 event
        ∷ boolean triggered
        ∷ uint _ protected
        ∷ uint _ bps
        ∷ uint _ schedule
        ∷ uint _ event_value
        ∷ uint _ at
        ∷ uint _ nonce
        ∷ uint _ expiry
        ∷ []) =
    some (record {
      domain = domain;
      rule_id = rule;
      event_hash = event;
      triggered = triggered;
      protected_usd18 = some (pos protected);
      protect_bps = bps;
      schedule_id = schedule;
      event_value_usd18 = some (pos event_value);
      evaluated_at = at;
      nonce = some (pos nonce);
      result_expiry = expiry;
    })
from_fields _ = none

module _ (g : Geth) where
  -- Domain
  unfoldable pub decision_domain : Hash
  decision_domain = g.keccak (codes "AVERLOCK_GUARD_RESULT_V2")

  -- FCCDecision.Validate; the map's order decides only which field an error names
  unfoldable pub validate : FccDecision → Result DecisionError (Unit {0})
  unfolding bad_uint256
  validate d = do
    fail_if (not (d.domain == decision_domain)) unexpected_domain
    fail_if
        (bad_uint256 d.protected_usd18 || bad_uint256 d.event_value_usd18 || bad_uint256 d.nonce)
        not_uint256

  unfoldable pub encode : FccDecision → Result DecisionError Bytes
  encode d = do validate d; or_err packing (g.pack (fields d))

  unfoldable pub decode : Bytes → Result DecisionError FccDecision
  unfolding from_fields
  decode bytes = do
    fail_if (not (length bytes == encoded_length)) bad_length
    values ← or_err unpacking (g.unpack decision_abi bytes)
    d ← or_err bad_type (from_fields values)
    validate d
    canonical ← encode d
    fail_if (not (bytes_eq canonical bytes)) non_canonical
    ok d

  -- `chainID == nil || chainID.Sign() <= 0 || chainID.BitLen() > 256`
  unfoldable pub bad_chain : BigInt → Bool
  bad_chain none = true
  bad_chain (some x) = is_nonpos x || not (fits_uint256 x)

  -- the arguments of `hashABI.Pack`: the domain, the chain, and the other fields
  unfoldable pub hash_fields : BigInt → FccDecision → List AbiValue
  unfolding magnitude
  hash_fields chain d =
      bytes32 d.domain
      ∷ uint 256 (magnitude chain)
      ∷ bytes32 d.rule_id
      ∷ bytes32 d.event_hash
      ∷ boolean d.triggered
      ∷ uint 256 (magnitude d.protected_usd18)
      ∷ uint 16 d.protect_bps
      ∷ uint 32 d.schedule_id
      ∷ uint 256 (magnitude d.event_value_usd18)
      ∷ uint 64 d.evaluated_at
      ∷ uint 256 (magnitude d.nonce)
      ∷ uint 64 d.result_expiry
      ∷ []

  unfoldable pub result_hash : BigInt → FccDecision → Result DecisionError Hash
  unfolding bad_chain
  result_hash chain d = do
    fail_if (bad_chain chain) bad_chain_id
    validate d
    encoded ← or_err packing (g.pack (hash_fields chain d))
    ok (g.keccak encoded)
