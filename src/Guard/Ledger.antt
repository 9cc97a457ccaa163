-- ===== src/Guard/Ledger.antt =====
-- What the extension server of packages/fcc-extension/go/internal/extension/extension.go promises of its
-- actions: a ledger from rules to policy states, without pointers, clones, a store or a cache.
pub mod Routes
pub mod Steps
pub mod Creation
pub mod Refines
use averlock.Prelude.{
  ℕ, Bool, true, Option, none, some, List, [], ◌∷◌, Bytes, ◌==◌, if◌then◌else◌, Result, ok, err,
  not,
}
use averlock.Ethereum.{Hash, Geth}
use averlock.Policy.{PolicyState, NormalizedPolicy}
use averlock.Guard.State.{
  EvaluateGuardRequest, Json, Failure, unknown_rule, rule_exists, Calls, Action, DataFixed, respond,
  Extension,
}
use averlock.Guard.Evaluate.{Evaluated, evaluate_request, evaluate_state, encode_response}
use averlock.Guard.Create.{create_request, new_policy_state, created}
use averlock.Guard.Dispatch.{
  Server, Body, result_body, decoding_fixed_data, unsupported_op_type, unsupported_op_command,
  op_type, op_create_policy, op_evaluate_guard, process_action,
}

abbrev pub Ledger : Type 0
Ledger = Hash → Option PolicyState

abbrev pub empty_ledger : Ledger
empty_ledger rule = none

abbrev pub update : Hash → PolicyState → Ledger → Ledger
update rule v ledger k = if k == rule then some v else ledger k

-- a new rule is entered, an old one is refused
unfoldable pub enter : NormalizedPolicy → Hash → Ledger → Result Failure (Unit {0}) × Ledger
enter policy commitment ledger = elim (ledger policy.rule_id) [
  | some _ ↦ (err rule_exists, ledger)
  | none ↦ (ok tt, update policy.rule_id (new_policy_state policy commitment) ledger)
]

module _ (g : Geth) (calls : Calls) (r : EvaluateGuardRequest) (timestamp : ℕ) where
  -- the entry of the rule becomes the state after the evaluation
  unfoldable pub settle : Ledger → Result Failure Evaluated → Result Failure Bytes × Ledger
  settle ledger (err x) = (err x, ledger)
  settle ledger (ok ev) = (encode_response g r timestamp ev, update r.rule_id ev.state ledger)

  -- an unknown rule is refused, and so is what the evaluation of a known one refuses
  unfoldable pub decide : Ledger → Result Failure Bytes × Ledger
  unfolding settle
  decide ledger = elim (ledger r.rule_id) [
    | none ↦ (err unknown_rule, ledger)
    | some v ↦ settle ledger (evaluate_state calls v r timestamp)
  ]

module _ {S : Type 0} (server : Server S) (calls : Calls) (action : Action) where
  unfoldable pub enter_action : DataFixed → Ledger → (ℕ × Body) × Ledger
  enter_action df ledger = elim (create_request server.geth server.json calls df) [
    | err x ↦ ((200, result_body (respond action df (err x))), ledger)
    | ok (policy, commitment) ↦
        let (entered, ledger') = enter policy commitment ledger in
        (
          (200, result_body (respond action df (created server.json policy commitment entered))),
          ledger',
        )
  ]

  unfoldable pub decide_action : DataFixed → Ledger → (ℕ × Body) × Ledger
  decide_action df ledger = elim (evaluate_request server.json df) [
    | err x ↦ ((200, result_body (respond action df (err x))), ledger)
    | ok r ↦
        let (response, ledger') = decide server.geth calls r df.timestamp ledger in
        ((200, result_body (respond action df response)), ledger')
  ]

  -- an action on the ledger
  unfoldable pub ledger_action : Ledger → (ℕ × Body) × Ledger
  unfolding enter_action decide_action
  ledger_action ledger = elim (server.tee.parse_fixed action.message) [
    | none ↦ ((400, decoding_fixed_data), ledger)
    | some df ↦
        if not (df.op_type == op_type server)
        then ((501, unsupported_op_type df.op_type), ledger)
        else if df.op_command == op_create_policy server
        then enter_action df ledger
        else if df.op_command == op_evaluate_guard server
        then decide_action df ledger
        else ((501, unsupported_op_command df.op_command), ledger)
  ]

module _ {S : Type 0} (server : Server S) where
  -- the answers to a sequence of actions, by the server and by the ledger
  unfoldable pub answers : List (Calls × Action) → Extension S → List (ℕ × Body)
  answers [] e = []
  answers ((calls, action) ∷ rest) e =
      let (body, e') = process_action server calls action e in body ∷ answers rest e'

  unfoldable pub ledger_answers : List (Calls × Action) → Ledger → List (ℕ × Body)
  ledger_answers [] ledger = []
  ledger_answers ((calls, action) ∷ rest) ledger =
      let (body, ledger') = ledger_action server calls action ledger in
      body ∷ ledger_answers rest ledger'
