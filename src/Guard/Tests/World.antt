-- ===== src/Guard/Tests/World.antt =====
-- A server on the memory store, its calls and the requests of the tests.
use averlock.Prelude.{
  ℕ, false, some, none, [], ◌∷◌, Bytes, Result, ok, err, codes, ltb, length, pos,
}
use averlock.Ethereum.Words.{of_bytes}
use averlock.Ethereum.Static.{words, words-IsGeth}
use averlock.Policy.{Policy}
use averlock.Store.{IsKeeper}
use averlock.Store.Memory.{MemoryStore, memory_store, memory_store-IsStore, memory_store-IsKeeper}
use averlock.Guard.State.{Json, EvaluateGuardRequest, Failure, Extension, DataFixed, Action, Calls}
use averlock.Guard.Dispatch.{Server, TeeNode, run, new_with_dependencies}
use averlock.Guard.Replay.{evaluates}
use averlock.Guard.History.Actions.{IsServer}
use averlock.Guard.Sound.{IsSound}
use averlock.Guard.Tests.Coding.{flat_gob, flat_gob-IsGob}

abbrev pub wire : Policy
wire = record {
  rule_id = 7;
  threshold_usd18 = codes "10";
  protect_bps = 5_000;
  schedule_id = 1;
  max_per_event_usd18 = codes "0";
  cooldown_seconds = 60;
  expires_at = 100_000;
}

abbrev pub json : Json
json = record {
  create_policy = λ bs. some (record { encrypted_policy = bs }, []);
  evaluate_guard = λ bs. none;
  policy = λ bs. some (wire, []);
  at_eof = λ bs. ltb (length bs) 1;
  marshal_created = λ response. 1 ∷ [];
}

abbrev pub fixed : DataFixed
fixed = record { op_type = 1; op_command = 2; timestamp = 50; original_message = 5 ∷ [] }

abbrev pub tee : TeeNode
tee = record {
  parse_fixed = λ message. some (record {
    op_type = of_bytes (codes "AVERLOCK_GUARD");
    op_command = of_bytes (codes "CREATE_POLICY");
    timestamp = 50;
    original_message = message;
  });
  to_hash = of_bytes;
}

abbrev pub server : Server MemoryStore
server = record { geth = words; json = json; gob = flat_gob; tee = tee; state_store = memory_store }

pub server_laws : IsServer server
server_laws = record {
  geth_laws = words-IsGeth;
  gob_laws = flat_gob-IsGob;
  store_laws = memory_store-IsStore;
}

abbrev pub keeper : IsKeeper memory_store IsSound
keeper = memory_store-IsKeeper IsSound

abbrev pub calls : Calls
calls = record {
  decrypt = λ bs. some bs;
  get_snapshot = λ h. ok (record {
    rule_id = 7;
    event_value_usd18 = some (pos 21);
    price_usd18 = some (pos 1);
    price_timestamp = 1;
    payment_timestamp = 1;
    prepared_at = 1;
    consumed = false;
  });
}

abbrev pub create : Calls × Action
create = (calls, record { id = 1; submission_tag = []; message = 5 ∷ [] })

abbrev pub request : ℕ → EvaluateGuardRequest
request n = record { rule_id = 7; event_hash = 9; nonce = n }

abbrev pub reached : Extension MemoryStore
reached = run server (create ∷ []) (new_with_dependencies [])

abbrev pub answer : Result Failure Bytes → Bytes
answer (ok bytes) = bytes
answer (err x) = []

abbrev pub first : Result Failure Bytes × Extension MemoryStore
first = evaluates server calls (request 1) 100 reached

abbrev pub second : Result Failure Bytes × Extension MemoryStore
second = evaluates server calls (request 2) 800 (run server (create ∷ []) first.1)

abbrev pub next : Result Failure Bytes × Extension MemoryStore
next = evaluates server calls (request 2) 800 first.1

abbrev pub late : Result Failure Bytes × Extension MemoryStore
late = evaluates server calls (request 1) 200_000 reached
