-- ===== src/Guard/Counters.antt =====
-- The counters that GET /state reports.
use averlock.Prelude.{ℕ, ◌≤◌, List, [], ◌∷◌, arith, inl, inr, Result-cases}
use averlock.Guard.State.{Calls, Extension, Action, EvaluateGuardRequest}
use averlock.Guard.Evaluate.{evaluate_guard, evaluate_request}
use averlock.Guard.Evaluate.Cases.{process_evaluate_refused, process_evaluate_accepted}
use averlock.Guard.Dispatch.{Server, process_action, run, new_with_dependencies, state_handler}
use averlock.Guard.Dispatch.Routes.{
  malformed, other_type, creates, evaluates, other_command, process_action-Route,
}
use averlock.Guard.Created.{process_create_policy-IsCreated}
use averlock.Guard.History.Actions.{IsServer}
use averlock.Guard.Outcome.{refused, recorded, evaluate_guard-Outcome}

module _ {S : Type 0} where
  abbrev pub Counted : Extension S → Type 0
  Counted e = e.successful_triggers ≤ e.evaluation_count

module _ {S : Type 0} (server : Server S) (laws : IsServer server) where
  evaluate-Counted :
      (calls : Calls) (r : EvaluateGuardRequest) (timestamp : ℕ) (e : Extension S)
      → Counted e
      → Counted (evaluate_guard server.geth server.state_store server.gob calls r timestamp e).1
  evaluate-Counted calls r timestamp e counted =
      elim (evaluate_guard-Outcome server.geth server.state_store laws.store_laws server.gob
        laws.gob_laws calls r timestamp e) [
          | refused _ _ same ↦ omega (arith, same.evaluations, same.triggers, counted)
          | recorded _ ev _ _ _ done ↦ ground (arith, done.evaluations, done.triggers, counted)
        ]

  action-Counted :
      (calls : Calls) (action : Action) (e : Extension S)
      → Counted e
      → Counted (process_action server calls action e).1
  action-Counted calls action e counted = elim (process_action-Route server calls action e) [
    | malformed _ is ↦ rw is counted
    | other_type _ _ _ is ↦ rw is counted
    | other_command _ _ _ _ _ is ↦ rw is counted
    | creates df _ _ _ is ↦
        rw is
          (elim (process_create_policy-IsCreated server.state_store laws.store_laws server.geth
            server.json calls action df e) [
              | inl (_, same) ↦ omega (arith, same.evaluations, same.triggers, counted)
              | inr (_, (_, _, _, made)) ↦
                  omega (arith, made.others.evaluations, made.others.triggers, counted)
            ])
    | evaluates df _ _ _ _ is ↦ rw is (elim (Result-cases (evaluate_request server.json df)) [
      | inr (x, failed) ↦
          rw
            (process_evaluate_refused server.geth server.state_store server.json server.gob calls
              action df e failed)
            counted
      | inl (r, accepted) ↦
          rw
            (process_evaluate_accepted server.geth server.state_store server.json server.gob calls
              action df e accepted)
            (evaluate-Counted calls r df.timestamp e counted)
    ])
  ]

  run-Counted :
      (actions : List (Calls × Action)) (e : Extension S)
      → Counted e
      → Counted (run server actions e)
  unfolding run
  run-Counted [] e counted = counted
  run-Counted ((calls, action) ∷ rest) e counted =
      run-Counted rest (process_action server calls action e).1
        (action-Counted calls action e counted)

  -- After any actions on a new server whose parts behave as documented, GET /state reports no more
  -- successful triggers than evaluations.
  pub state_handler-le :
      (s : S) (actions : List (Calls × Action))
      → let state = state_handler server (run server actions (new_with_dependencies s)) in
        state.successful_triggers ≤ state.evaluation_count
  unfolding state_handler
  state_handler-le s actions = run-Counted actions (new_with_dependencies s) (omega arith)
