-- ===== src/Snapshot/Tests.antt =====
-- Snapshots at concrete answers.
use averlock.Prelude.{◌%◌, ◌^◌, ℕ, ◌≡◌, ◌∷◌, [], refl, true, some, none, ok, arith, codes, Bytes}
use averlock.Ethereum.Words.{to_bytes, of_bytes}
use averlock.Snapshot.{
  ReaderConfig, Node, Batch, GuardManagerReader, EventSnapshot, get_snapshot,
  new_guard_manager_reader, connect_and_validate, decode_snapshot, expected_guard_manager,
}
use averlock.Snapshot.Decode.{
  get_snapshot-IsValidated, encode_words, get_snapshot-encode_words, snapshot,
}

abbrev config : ReaderConfig
config = record { coston2_rpc_url = codes "https"; guard_manager_address = expected_guard_manager }

abbrev node : Node
node = record { dials = true; chain_id = some 114; code = some (96 ∷ []) }

abbrev reader : GuardManagerReader
reader = record { rpc = true; init_err = none }

abbrev seen : EventSnapshot
seen =
    snapshot 7 21 3 100 101 102 0 (omega arith) (omega arith) (omega arith) (omega arith)
      (omega arith) (omega arith) (omega arith)

abbrev batch : Batch
batch = record {
  snapshot_out = some (encode_words (7 ∷ 21 ∷ 3 ∷ 100 ∷ 101 ∷ 102 ∷ []));
  consumed_out = some (to_bytes 32 0);
}

read_back : get_snapshot reader (some batch) ≡ ok seen
unfolding get_snapshot decode_snapshot to_bytes of_bytes
read_back = refl

get_snapshot-encode_words_example : get_snapshot reader (some batch) ≡ ok seen
get_snapshot-encode_words_example =
    get_snapshot-encode_words 7 21 3 100 101 102 0 (omega arith) (omega arith) (omega arith)
      (omega arith) (omega arith) (omega arith) (omega arith) reader refl refl

validated_read : get_snapshot (new_guard_manager_reader config node) (some batch) ≡ ok seen
unfolding new_guard_manager_reader connect_and_validate
validated_read = read_back

get_snapshot-IsValidated_example :
    (config.guard_manager_address ≡ expected_guard_manager)
    × (node.dials ≡ true)
    × ((c : ℕ) × (node.chain_id ≡ some c) × (c % 2 ^ 64 ≡ 114))
    × ((b : ℕ) × (bs : Bytes) × (node.code ≡ some (b ∷ bs)))
get_snapshot-IsValidated_example =
    get_snapshot-IsValidated config node (some batch) seen validated_read
