-- ===== src/Guard/Ledger/Routes.antt =====
-- Where an action goes on the ledger.
use averlock.Prelude.{◌≡◌, ◌≢◌, none, some, arith, ok, err}
use averlock.Ethereum.{Hash}
use averlock.Policy.{NormalizedPolicy}
use averlock.Guard.State.{Calls, Action, DataFixed, Failure, EvaluateGuardRequest, respond}
use averlock.Guard.Evaluate.{evaluate_request}
use averlock.Guard.Create.{create_request, created}
use averlock.Guard.Dispatch.{
  Server, result_body, decoding_fixed_data, unsupported_op_type, unsupported_op_command, op_type,
  op_create_policy, op_evaluate_guard,
}
use averlock.Guard.Ledger.{Ledger, enter, decide, enter_action, decide_action, ledger_action}

module _ {S : Type 0} (server : Server S) (calls : Calls) (action : Action) (ledger : Ledger) where
  pub enter_refused :
      (df : DataFixed) (x : Failure)
      → create_request server.geth server.json calls df ≡ err x
      → enter_action server calls action df ledger
        ≡ ((200, result_body (respond action df (err x))), ledger)
  unfolding enter_action
  enter_refused df x refused = ground (arith, refused)

  pub enter_accepted :
      (df : DataFixed) (policy : NormalizedPolicy) (commitment : Hash)
      → create_request server.geth server.json calls df ≡ ok (policy, commitment)
      → let out = enter policy commitment ledger in
        enter_action server calls action df ledger ≡ (
          (200, result_body (respond action df (created server.json policy commitment out.0))),
          out.1,
        )
  unfolding enter_action
  enter_accepted df policy commitment accepted = ground (arith, accepted)

  pub decide_refused :
      (df : DataFixed) (x : Failure)
      → evaluate_request server.json df ≡ err x
      → decide_action server calls action df ledger
        ≡ ((200, result_body (respond action df (err x))), ledger)
  unfolding decide_action
  decide_refused df x refused = ground (arith, refused)

  pub decide_accepted :
      (df : DataFixed) (r : EvaluateGuardRequest)
      → evaluate_request server.json df ≡ ok r
      → let out = decide server.geth calls r df.timestamp ledger in
        decide_action server calls action df ledger
        ≡ ((200, result_body (respond action df out.0)), out.1)
  unfolding decide_action
  decide_accepted df r accepted = ground (arith, accepted)

  pub ledger_malformed :
      server.tee.parse_fixed action.message ≡ none
      → ledger_action server calls action ledger ≡ ((400, decoding_fixed_data), ledger)
  unfolding ledger_action
  ledger_malformed bad = ground (arith, bad)

  module _ (df : DataFixed) (parsed : server.tee.parse_fixed action.message ≡ some df) where
    pub ledger_other_type :
        df.op_type ≢ op_type server
        → ledger_action server calls action ledger ≡ ((501, unsupported_op_type df.op_type), ledger)
    unfolding ledger_action
    ledger_other_type other = ground (arith, parsed, other)

    pub ledger_creates :
        df.op_type ≡ op_type server
        → df.op_command ≡ op_create_policy server
        → ledger_action server calls action ledger ≡ enter_action server calls action df ledger
    unfolding ledger_action
    ledger_creates right create = ground (arith, parsed, right, create)

    pub ledger_evaluates :
        df.op_type ≡ op_type server
        → df.op_command ≢ op_create_policy server
        → df.op_command ≡ op_evaluate_guard server
        → ledger_action server calls action ledger ≡ decide_action server calls action df ledger
    unfolding ledger_action
    ledger_evaluates right other evaluate = ground (arith, parsed, right, other, evaluate)

    pub ledger_other_command :
        df.op_type ≡ op_type server
        → df.op_command ≢ op_create_policy server
        → df.op_command ≢ op_evaluate_guard server
        → ledger_action server calls action ledger
          ≡ ((501, unsupported_op_command df.op_command), ledger)
    unfolding ledger_action
    ledger_other_command right other neither = ground (arith, parsed, right, other, neither)
