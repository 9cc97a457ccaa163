-- ===== src/Guard/State.antt =====
-- The state of `Extension` (packages/fcc-extension/go/internal/extension/extension.go), the messages
-- that it handles, the results that it returns, and what it calls.
use averlock.Prelude.{
  ℕ, ◌+◌, ◌%◌, ◌^◌, Bool, not, Option, none, some, Bytes, Result, ok, err, or_err, fail_if, ◌>>=◌,
  ◌>>◌, Map, codes, arith, ◌≡◌, ◌==◌, if◌then◌else◌,
}
use averlock.Ethereum.{Hash}
use averlock.Decision.{DecisionError}
use averlock.Policy.{Policy, PolicyState, PolicyError, ResultHashError}
use averlock.Uint256.{UintError}
use averlock.Store.{Ptr, Heap, StoreError}
use averlock.Snapshot.{EventSnapshot, SnapshotError}

-- guardtypes.CreatePolicyRequest
pub record CreatePolicyRequest : Type 0 where
  pub encrypted_policy : Bytes

-- guardtypes.CreatePolicyResponse
pub record CreatePolicyResponse : Type 0 where
  pub rule_id : Hash
  pub accepted : Bool
  pub policy_commitment : Hash

-- guardtypes.EvaluateGuardRequest
pub record EvaluateGuardRequest : Type 0 where
  pub rule_id : Hash
  pub event_hash : Hash
  pub nonce : ℕ

-- the errors of decodeStrictJSON
pub data JsonError : Type 0 where
  bad_json : JsonError
  trailing_json : JsonError

-- encoding/json: a Decode of one value, which gives the rest of the input, for each target type, and
-- whether a further Decode gives io.EOF; and Marshal.
pub record Json : Type 0 where
  pub create_policy : Bytes → Option (CreatePolicyRequest × Bytes)
  pub evaluate_guard : Bytes → Option (EvaluateGuardRequest × Bytes)
  pub policy : Bytes → Option (Policy × Bytes)
  pub at_eof : Bytes → Bool
  pub marshal_created : CreatePolicyResponse → Bytes

-- encoding/gob on policyState
pub record Gob : Type 0 where
  pub gob_encode : PolicyState → Option Bytes
  pub gob_decode : Bytes → Option PolicyState

-- A state is read back from its encoding.
pub record IsGob (gob : Gob) : Type 0 where
  pub encoded : PolicyState → Bytes
  pub encode_total : (v : PolicyState) → gob.gob_encode v ≡ some (encoded v)
  pub decode_encoded : (v : PolicyState) → gob.gob_decode (encoded v) ≡ some v

-- decodeStrictJSON into a type with the given decoder
unfoldable pub decode_strict :
    {A : Type 0} → (Bytes → Option (A × Bytes)) → (Bytes → Bool) → Bytes → Result JsonError A
decode_strict next at_eof input = do
  decoded ← or_err bad_json (next input)
  fail_if (not (at_eof decoded.1)) trailing_json
  ok decoded.0

-- clonePolicyState
unfoldable pub clone_policy_state : Gob → PolicyState → Option PolicyState
clone_policy_state gob source = elim (gob.gob_encode source) [
  | none ↦ none
  | some buf ↦ gob.gob_decode buf
]

-- The copy has the same fields.
pub clone_policy_state_lem :
    (gob : Gob) → IsGob gob → (v : PolicyState) → clone_policy_state gob v ≡ some v
unfolding clone_policy_state
clone_policy_state_lem gob laws v = ground (arith, laws.encode_total v, laws.decode_encoded v)

-- instruction.DataFixed
pub record DataFixed : Type 0 where
  pub op_type : Hash
  pub op_command : Hash
  pub timestamp : ℕ
  pub original_message : Bytes

-- teetypes.Action, the fields that are read
pub record Action : Type 0 where
  pub id : Hash
  pub submission_tag : Bytes
  pub message : Bytes

-- why a request fails; the texts are those of the source
pub data Failure : Type 0 where
  decoding_create : JsonError → Failure
  empty_encrypted_policy : Failure
  decrypting : Failure
  decoding_policy : JsonError → Failure
  validating : PolicyError → Failure
  not_in_future : Failure
  encoding_commitment : Failure
  rule_exists : Failure
  loading_state : StoreError → Failure
  persisting_policy : StoreError → Failure
  decoding_evaluate : JsonError → Failure
  zero_ids : Failure
  zero_timestamp : Failure
  unknown_rule : Failure
  copying_state : Failure
  policy_expired : Failure
  nonce_replay : Failure
  reading_snapshot : SnapshotError → Failure
  rule_mismatch : Failure
  no_snapshot : Failure
  event_consumed : Failure
  value_mismatch : Failure
  authorization_active : Failure
  persisting_evaluation : StoreError → Failure
  hashing_result : ResultHashError → Failure
  encoding_protected : UintError → Failure
  encoding_decision : DecisionError → Failure

-- the field Log: "error: …", "ok" or "pending"
pub data Log : Type 0 where
  error : Option Failure → Log
  log_ok : Log
  pending : Log

-- teetypes.ActionResult
pub record ActionResult : Type 0 where
  pub id : Hash
  pub submission_tag : Bytes
  pub version : Bytes
  pub op_type : Hash
  pub op_command : Hash
  pub result_data : Option Bytes
  pub status : ℕ
  pub log : Log

-- Extension: the policies that are held in memory, the objects they point to, the store, and the
-- two counters.
pub record Extension (S : Type 0) : Type 0 where
  pub policies : Map Ptr
  pub heap : Heap
  pub store : S
  pub evaluation_count : ℕ
  pub successful_triggers : ℕ

-- what the handlers call while they serve one action: the decryptor and the snapshot reader
pub record Calls : Type 0 where
  pub decrypt : Bytes → Option Bytes
  pub get_snapshot : Hash → Result SnapshotError EventSnapshot

-- config.ResultValiditySeconds
abbrev pub result_validity_seconds : ℕ
result_validity_seconds = 600

-- a uint64 sum
abbrev pub add64 : ℕ → ℕ → ℕ
add64 a b = (a + b) % 2 ^ 64

-- config.Version
abbrev pub version : Bytes
version = codes "0.1.0"

-- the switch of buildResult on the status
unfoldable pub log_of : ℕ → Option Failure → Log
log_of status failure =
    if status == 0 then error failure else if status == 1 then log_ok else pending

-- buildResult
unfoldable pub build_result : Action → DataFixed → Option Bytes → ℕ → Option Failure → ActionResult
unfolding log_of
build_result action df result_data status failure = record {
  id = action.id;
  submission_tag = action.submission_tag;
  version = version;
  op_type = df.op_type;
  op_command = df.op_command;
  result_data = result_data;
  status = status;
  log = log_of status failure;
}

-- how both handlers end: `buildResult(action, df, nil, 0, err)` or `(action, df, response, 1, nil)`
abbrev pub respond : Action → DataFixed → Result Failure Bytes → ActionResult
respond action df (ok response) = build_result action df (some response) 1 none
respond action df (err failure) = build_result action df none 0 (some failure)
