-- ===== src/Snapshot.antt =====
-- packages/fcc-extension/go/internal/extension/consumption.go: reading an event's snapshot from the
-- GuardManager contract. What the RPC node answers is a parameter.
pub mod Decode
mod Tests
use averlock.Prelude.{
  is_empty, ℕ, ◌-◌, ◌%◌, ◌^◌, Bool, true, false, ◌||◌, not, Option, none, some, List, [], ◌∷◌,
  Bytes, length, take, drop, ◌==◌, if◌then◌else◌, Result, ok, err, or_err, fail_if, ◌>>=◌, ◌>>◌,
  pos,
}
use averlock.Ethereum.{Hash}
use averlock.Ethereum.Words.{of_bytes}
use averlock.Decision.{BigInt}
use averlock.Policy.{coston2_chain_id}

-- eventSnapshot
pub record EventSnapshot : Type 0 where
  pub rule_id : Hash
  pub event_value_usd18 : BigInt
  pub price_usd18 : BigInt
  pub price_timestamp : ℕ
  pub payment_timestamp : ℕ
  pub prepared_at : ℕ
  pub consumed : Bool

pub data SnapshotError : Type 0 where
  not_configured : SnapshotError
  dial_failed : SnapshotError
  wrong_chain : SnapshotError
  code_failed : SnapshotError
  no_bytecode : SnapshotError
  no_client : SnapshotError
  batch_failed : SnapshotError
  call_failed : SnapshotError
  bad_lengths : SnapshotError
  readiness_failed : SnapshotError

-- config.ExpectedGuardManager
abbrev pub expected_guard_manager : ℕ
expected_guard_manager = 0x444947Aaa00aB3fddbeb6421244A160448E6B52D

-- the values of the package config that the reader is made from
pub record ReaderConfig : Type 0 where
  pub coston2_rpc_url : Bytes
  pub guard_manager_address : ℕ

-- What the node answers: whether it can be dialled, `eth_chainId`, the code at the manager, and the
-- two results of the batch (`none`: the call failed).
pub record Node : Type 0 where
  pub dials : Bool
  pub chain_id : Option ℕ
  pub code : Option Bytes

pub record Batch : Type 0 where
  pub snapshot_out : Option Bytes
  pub consumed_out : Option Bytes

-- guardManagerReader: `rpc` tells whether the client is set
pub record GuardManagerReader : Type 0 where
  pub rpc : Bool
  pub init_err : Option SnapshotError

-- `err != nil || chainID.Uint64() != config.Coston2ChainID`
wrong_chain_id : Option ℕ → Bool
wrong_chain_id none = true
wrong_chain_id (some n) = not (n % 2 ^ 64 == coston2_chain_id)

-- connectAndValidate; `r.manager` is config.GuardManagerAddress
unfoldable pub connect_and_validate : ReaderConfig → Node → Result SnapshotError (Unit {0})
unfolding wrong_chain_id
connect_and_validate config node = do
  fail_if
      (is_empty config.coston2_rpc_url
        || not (config.guard_manager_address == expected_guard_manager))
      not_configured
  fail_if (not node.dials) dial_failed
  fail_if (wrong_chain_id node.chain_id) wrong_chain
  code ← or_err code_failed node.code
  fail_if (is_empty code) no_bytecode

connected : Result SnapshotError (Unit {0}) → GuardManagerReader
connected (ok _) = record { rpc = true; init_err = none }
connected (err e) = record { rpc = false; init_err = some e }

-- newGuardManagerReader
unfoldable pub new_guard_manager_reader : ReaderConfig → Node → GuardManagerReader
unfolding connected
new_guard_manager_reader config node = connected (connect_and_validate config node)

abbrev check_init : GuardManagerReader → Result SnapshotError (Unit {0})
check_init r = elim r.init_err [ none ↦ ok tt | some e ↦ err e ]

-- Ready, with what `eth_chainId` answers now
unfoldable pub ready : GuardManagerReader → Option ℕ → Result SnapshotError (Unit {0})
ready r answer = do
  check_init r
  chain_id ← or_err readiness_failed answer
  fail_if (not (chain_id % 2 ^ 64 == coston2_chain_id)) wrong_chain

-- `b[i:j]`
abbrev pub slice : ℕ → ℕ → Bytes → Bytes
slice i j b = take (j - i) (drop i b)

-- the fields of the two answers
unfoldable pub decode_snapshot : Bytes → Bytes → EventSnapshot
decode_snapshot snapshot_out consumed_out = record {
  rule_id = of_bytes (slice 0 32 snapshot_out);
  event_value_usd18 = some (pos (of_bytes (slice 32 64 snapshot_out)));
  price_usd18 = some (pos (of_bytes (slice 64 96 snapshot_out)));
  price_timestamp = of_bytes (slice 96 128 snapshot_out) % 2 ^ 64;
  payment_timestamp = of_bytes (slice 128 160 snapshot_out) % 2 ^ 64;
  prepared_at = of_bytes (slice 160 192 snapshot_out) % 2 ^ 64;
  consumed = not (of_bytes consumed_out == 0);
}

-- GetSnapshot; `batch` is `none` if the batch call itself fails
unfoldable pub get_snapshot : GuardManagerReader → Option Batch → Result SnapshotError EventSnapshot
get_snapshot r batch = do
  check_init r
  fail_if (not r.rpc) no_client
  outs ← or_err batch_failed batch
  snapshot_out ← or_err call_failed outs.snapshot_out
  consumed_out ← or_err call_failed outs.consumed_out
  fail_if (not (length snapshot_out == 192) || not (length consumed_out == 32)) bad_lengths
  ok (decode_snapshot snapshot_out consumed_out)
