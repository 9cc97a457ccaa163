-- ===== src/Live/Answers.antt =====
-- The results of actions and the decisions in them: mustResult, readGuardManagerSnapshot,
-- evaluateExistingSnapshot and sendEvaluation in packages/fcc-extension/tools/cmd/run-test/main.go.
use averlock.Prelude.{
  ℕ, ◌+◌, ◌-◌, ◌*◌, ◌/◌, ◌%◌, ◌^◌, Bool, false, ◌||◌, not, Option, none, some, [], ◌∷◌, ◌++◌, Bytes,
  codes, is_empty, length, take, ltb, leb, ◌==◌, Result, ok, err, or_err, fail_if, ◌>>=◌, ◌>>◌, ℤ,
  pos, negsuc,
}
use averlock.Ethereum.{Hash, Geth, bytes32}
use averlock.Ethereum.Words.{of_bytes, to_bytes}
use averlock.Decision.{FccDecision, BigInt, decode, encoded_length}
use averlock.Snapshot.{slice}
use averlock.Validate.{Address}
use averlock.Live.{
  LiveError, no_result, unexpected_result, hash_failed, bad_signature, bad_length, bad_decision,
  context_mismatch, not_triggered, protected_mismatch, bad_time, query_failed, expected_protect_bps,
  expected_schedule_id, expected_decision_lifetime,
}

-- teetypes.ActionResponse with the fields of its Result
pub record ActionResponse : Type 0 where
  pub id : Hash
  pub status : ℕ
  pub log : Bytes
  pub result_data : Bytes
  pub signature : Bytes

-- tee-node: Result.Hash, the hash of a TEEActionResult payload on the chain, and VerifySignature
pub record Signing : Type 0 where
  pub hash : ActionResponse → Hash
  pub payload_hash : Hash → Option Hash
  pub verify_signature : Hash → Bytes → Address → Bool

-- mustResult, from the answer of ActionResult
unfoldable pub must_result :
    Signing → Option ActionResponse → Hash → Address → ℕ → Result LiveError ActionResponse
must_result signing answer action_id tee expected_status = do
  response ← or_err no_result answer
  fail_if (not (response.id == action_id) || not (response.status == expected_status))
      unexpected_result
  payload ← or_err hash_failed (signing.payload_hash (signing.hash response))
  fail_if (not (signing.verify_signature payload response.signature tee)) bad_signature
  ok response

-- resultDomain
unfoldable pub result_domain : Geth → Hash
result_domain g = g.keccak (codes "AVERLOCK_GUARD_RESULT_V2")

-- the first test of a response: its length, and its decoding
unfoldable pub decode_response : Geth → Bytes → Result LiveError FccDecision
decode_response g bytes = do
  fail_if (not (length bytes == encoded_length)) bad_length
  elim (decode g bytes) [ err e ↦ err bad_decision | ok d ↦ ok d ]

-- `x.Cmp(y) == 0`
unfoldable pub same_int : BigInt → ℤ → Bool
same_int none y = false
same_int (some (pos n)) (pos m) = n == m
same_int (some (negsuc n)) (negsuc m) = n == m
same_int (some _) _ = false

-- the comparison of a decision with what was asked
unfoldable pub check_context :
    Geth → Hash → Hash → ℤ → ℕ → FccDecision → Result LiveError (Unit {0})
unfolding same_int
check_context g rule_id event_hash value nonce d =
    fail_if
      (not (d.domain == result_domain g)
        || (not (d.rule_id == rule_id)
            || (not (d.event_hash == event_hash)
                || (not (same_int d.event_value_usd18 value)
                    || not (same_int d.nonce (pos nonce))))))
      context_mismatch

-- seconds before a time in uint64
unfoldable pub before : ℕ → ℕ → ℕ
before seconds time = (time + 2 ^ 64 - seconds) % 2 ^ 64

-- the window of the clock, two minutes before the start and after the end, and the lifetime
unfoldable pub check_times : ℕ → ℕ → FccDecision → Result LiveError (Unit {0})
unfolding before
check_times started finished d =
    fail_if
      (ltb d.evaluated_at (before 120 started)
        || (ltb ((finished + 120) % 2 ^ 64) d.evaluated_at
            || (leb d.result_expiry d.evaluated_at
                || ltb expected_decision_lifetime (d.result_expiry - d.evaluated_at))))
      bad_time

-- `expectedProtected`
unfoldable pub expected_protected : ℕ → ℕ
expected_protected value = value * expected_protect_bps / 10_000

-- what evaluateExistingSnapshot expects of a decision
unfoldable pub check_decision :
    Geth → Hash → Hash → ℕ → ℕ → ℕ → ℕ → FccDecision → Result LiveError (Unit {0})
unfolding check_context check_times expected_protected same_int
check_decision g rule_id event_hash value nonce started finished d =
    check_context g rule_id event_hash (pos value) nonce d
    >> fail_if
        (not d.triggered
          || (not (d.protect_bps == expected_protect_bps)
              || not (d.schedule_id == expected_schedule_id)))
        not_triggered
    >> fail_if (not (same_int d.protected_usd18 (pos (expected_protected value))))
        protected_mismatch
    >> check_times started finished d

-- guardManagerSnapshot; SetBytes gives no negative number
pub record GuardManagerSnapshot : Type 0 where
  pub rule_id : Hash
  pub event_value_usd18 : ℕ
  pub price_usd18 : ℕ
  pub price_timestamp : ℕ
  pub payment_timestamp : ℕ
  pub prepared_at : ℕ

-- `new(big.Int).SetBytes(out[i:i+32])`, and its Uint64
abbrev word : Bytes → ℕ → ℕ
word out i = of_bytes (slice i (i + 32) out)

abbrev word64 : Bytes → ℕ → ℕ
word64 out i = word out i % 2 ^ 64

-- the answers of the GuardManager contract: its code, and the outputs of two calls
pub record Manager : Type 0 where
  pub code : Option Bytes
  pub call : Bytes → Option Bytes

or_empty : Option Bytes → Bytes
or_empty none = []
or_empty (some bytes) = bytes

-- the call data of a method with one bytes32 argument; an error of Pack is not looked at
unfoldable pub call_data : Geth → Bytes → Hash → Bytes
unfolding or_empty
call_data g signature argument =
    take 4 (to_bytes 32 (g.keccak signature)) ++ or_empty (g.pack (bytes32 argument ∷ []))

-- readGuardManagerSnapshot
unfoldable pub read_guard_manager_snapshot :
    Geth → Manager → Hash → Result LiveError (GuardManagerSnapshot × Bool)
unfolding call_data
read_guard_manager_snapshot g manager event_hash = do
  code ← or_err query_failed manager.code
  fail_if (is_empty code) query_failed
  out ←
      or_err query_failed
        (manager.call (call_data g (codes "getEvaluationSnapshot(bytes32)") event_hash))
  fail_if (not (length out == 192)) query_failed
  consumed_out ←
      or_err query_failed (manager.call (call_data g (codes "isEventConsumed(bytes32)") event_hash))
  fail_if (not (length consumed_out == 32)) query_failed
  ok (
    record {
      rule_id = word out 0;
      event_value_usd18 = word out 32;
      price_usd18 = word out 64;
      price_timestamp = word64 out 96;
      payment_timestamp = word64 out 128;
      prepared_at = word64 out 160;
    },
    not (of_bytes consumed_out == 0),
  )
