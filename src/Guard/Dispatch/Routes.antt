-- ===== src/Guard/Dispatch/Routes.antt =====
-- Where an action goes: the routes of processAction and processGuard.
use averlock.Prelude.{ℕ, ◌≡◌, ◌≢◌, none, some, arith, ◌==◌, inl, inr, Option-cases, Bool-cases}
use averlock.Guard.State.{Calls, Extension, Action, DataFixed, ActionResult}
use averlock.Guard.Create.{process_create_policy}
use averlock.Guard.Evaluate.{process_evaluate_guard}
use averlock.Guard.Dispatch.{
  Server, Body, result_body, decoding_fixed_data, unsupported_op_type, unsupported_op_command,
  process_action, op_type, op_create_policy, op_evaluate_guard,
}

module _ {S : Type 0} (server : Server S) (calls : Calls) (action : Action) (e : Extension S) where
  abbrev pub creation : DataFixed → ActionResult × Extension S
  creation df = process_create_policy server.state_store server.geth server.json calls action df e

  abbrev pub evaluation : DataFixed → ActionResult × Extension S
  evaluation df =
      process_evaluate_guard server.geth server.state_store server.json server.gob calls action df e

  -- The answer to an action and the state after it, by what its message says.
  pub data Route (out : (ℕ × Body) × Extension S) : Type 0 where
    malformed :
        server.tee.parse_fixed action.message ≡ none
        → out ≡ ((400, decoding_fixed_data), e)
        → Route out
    other_type :
        (df : DataFixed)
        → server.tee.parse_fixed action.message ≡ some df
        → df.op_type ≢ op_type server
        → out ≡ ((501, unsupported_op_type df.op_type), e)
        → Route out
    creates :
        (df : DataFixed)
        → server.tee.parse_fixed action.message ≡ some df
        → df.op_type ≡ op_type server
        → df.op_command ≡ op_create_policy server
        → out ≡ ((200, result_body (creation df).0), (creation df).1)
        → Route out
    evaluates :
        (df : DataFixed)
        → server.tee.parse_fixed action.message ≡ some df
        → df.op_type ≡ op_type server
        → df.op_command ≢ op_create_policy server
        → df.op_command ≡ op_evaluate_guard server
        → out ≡ ((200, result_body (evaluation df).0), (evaluation df).1)
        → Route out
    other_command :
        (df : DataFixed)
        → server.tee.parse_fixed action.message ≡ some df
        → df.op_type ≡ op_type server
        → df.op_command ≢ op_create_policy server
        → df.op_command ≢ op_evaluate_guard server
        → out ≡ ((501, unsupported_op_command df.op_command), e)
        → Route out

  -- Every action takes one of the five routes.
  pub process_action-Route : Route (process_action server calls action e)
  unfolding process_action
  process_action-Route = elim (Option-cases (server.tee.parse_fixed action.message)) [
    | inl none_there ↦ malformed none_there (ground arith)
    | inr (df, parsed) ↦ elim (Bool-cases (df.op_type == op_type server)) [
      | inr other ↦ other_type df parsed (ground arith) (ground arith)
      | inl right ↦ elim (Bool-cases (df.op_command == op_create_policy server)) [
        | inl create ↦ creates df parsed (ground arith) (ground arith) (ground arith)
        | inr not_create ↦ elim (Bool-cases (df.op_command == op_evaluate_guard server)) [
          | inl evaluate ↦
              evaluates df parsed (ground arith) (ground arith) (ground arith) (ground arith)
          | inr neither ↦
              other_command df parsed (ground arith) (ground arith) (ground arith) (ground arith)
        ]
      ]
    ]
  ]
