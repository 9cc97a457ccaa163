-- ===== src/Guard/Dispatch.antt =====
-- The request handlers of the extension server: processAction, processGuard and stateHandler of
-- packages/fcc-extension/go/internal/extension/extension.go.
pub mod Routes
use averlock.Prelude.{
  ℕ, Bool, true, Option, none, some, Bytes, codes, ◌==◌, if◌then◌else◌, Result, ok, err, length,
  not, List, [], ◌∷◌,
}
use averlock.Ethereum.{Hash, Geth}
use averlock.Store.{StateStore}
use averlock.Snapshot.{SnapshotError}
use averlock.Guard.State.{Json, Gob, Action, DataFixed, ActionResult, Extension, Calls, version}
use averlock.Guard.Create.{process_create_policy}
use averlock.Guard.Evaluate.{process_evaluate_guard}

-- tee-node: the fixed data of a message, and the hash of a name
pub record TeeNode : Type 0 where
  pub parse_fixed : Bytes → Option DataFixed
  pub to_hash : Bytes → Hash

-- the body of a response: an action's result as JSON, or a text
pub data Body : Type 0 where
  result_body : ActionResult → Body
  decoding_fixed_data : Body
  unsupported_op_type : Hash → Body
  unsupported_op_command : Hash → Body

-- what the server is built from
pub record Server (S : Type 0) : Type 0 where
  pub geth : Geth
  pub json : Json
  pub gob : Gob
  pub tee : TeeNode
  pub state_store : StateStore S

abbrev pub status_ok : ℕ
status_ok = 200

abbrev pub status_bad_request : ℕ
status_bad_request = 400

abbrev pub status_not_implemented : ℕ
status_not_implemented = 501

abbrev pub status_service_unavailable : ℕ
status_service_unavailable = 503

-- guardtypes.StateResponse with the State inside
pub record StateResponse : Type 0 where
  pub state_version : Hash
  pub policy_count : ℕ
  pub evaluation_count : ℕ
  pub successful_triggers : ℕ

-- newWithDependencies, with the store that New sets
abbrev pub new_with_dependencies : {S : Type 0} → S → Extension S
new_with_dependencies store = record {
  policies = [];
  heap = [];
  store = store;
  evaluation_count = 0;
  successful_triggers = 0;
}

module _ {S : Type 0} (server : Server S) where
  unfoldable pub op_type : Hash
  op_type = server.tee.to_hash (codes "AVERLOCK_GUARD")

  unfoldable pub op_create_policy : Hash
  op_create_policy = server.tee.to_hash (codes "CREATE_POLICY")

  unfoldable pub op_evaluate_guard : Hash
  op_evaluate_guard = server.tee.to_hash (codes "EVALUATE_GUARD")

  abbrev answer : ActionResult × Extension S → (ℕ × Body) × Extension S
  answer (result, e) = ((status_ok, result_body result), e)

  -- processGuard
  unfoldable pub process_guard : Calls → Action → DataFixed → Extension S → (ℕ × Body) × Extension S
  process_guard calls action df e =
      if df.op_command == op_create_policy
      then answer
          (process_create_policy server.state_store server.geth server.json calls action df e)
      else if df.op_command == op_evaluate_guard
      then answer (
          process_evaluate_guard server.geth server.state_store server.json server.gob calls action
            df e)
      else ((status_not_implemented, unsupported_op_command df.op_command), e)

  -- processAction
  unfoldable pub process_action : Calls → Action → Extension S → (ℕ × Body) × Extension S
  unfolding process_guard
  process_action calls action e = elim (server.tee.parse_fixed action.message) [
    | none ↦ ((status_bad_request, decoding_fixed_data), e)
    | some df ↦
        if not (df.op_type == op_type)
        then ((status_not_implemented, unsupported_op_type df.op_type), e)
        else process_guard calls action df e
  ]

  -- the actions that the server receives, one after the other: the handlers hold the mutex
  unfoldable pub run : List (Calls × Action) → Extension S → Extension S
  run [] e = e
  run ((calls, action) ∷ rest) e = run rest (process_action calls action e).1

  -- stateHandler
  unfoldable pub state_handler : Extension S → StateResponse
  state_handler e = record {
    state_version = server.tee.to_hash version;
    policy_count = length e.policies;
    evaluation_count = e.evaluation_count;
    successful_triggers = e.successful_triggers;
  }

-- readyHandler, from what the reader's Ready returns
unfoldable pub ready_handler : Result SnapshotError (Unit {0}) → ℕ
ready_handler (ok _) = status_ok
ready_handler (err _) = status_service_unavailable
