-- ===== src/Guard/Ledger/Refines.antt =====
-- The server with the memory store implements the ledger.
use averlock.Prelude.{
  ℕ, ◌≡◌, ◌≢◌, refl, ap, List, [], ◌∷◌, arith, ok, lookup, Result-cases, inl, inr,
}
use averlock.Ethereum.{Hash, Geth}
use averlock.Policy.{NormalizedPolicy}
use averlock.Policy.Normalize.{normalize_policy_iff}
use averlock.Guard.State.{
  ActionResult, respond, Json, Calls, Action, DataFixed, Extension, IsGob, EvaluateGuardRequest,
}
use averlock.Guard.Evaluate.{evaluate_request}
use averlock.Guard.Evaluate.Cases.{process_evaluate_refused, process_evaluate_accepted}
use averlock.Guard.Create.{create_request, created}
use averlock.Guard.Create.Cases.{
  create_request_lem, process_create_refused, process_create_accepted,
}
use averlock.Guard.Dispatch.{Server, Body, result_body, process_action, new_with_dependencies}
use averlock.Guard.Dispatch.Routes.{
  malformed, other_type, creates, evaluates, other_command, process_action-Route, creation,
  evaluation,
}
use averlock.Store.Memory.{MemoryStore, memory_store}
use averlock.Guard.Ledger.{
  Ledger, empty_ledger, enter_action, decide_action, ledger_action, answers, ledger_answers,
}
use averlock.Guard.Ledger.Routes.{
  enter_refused, enter_accepted, decide_refused, decide_accepted, ledger_malformed,
  ledger_other_type, ledger_creates, ledger_evaluates, ledger_other_command,
}
use averlock.Guard.Ledger.Steps.{Shows, Agrees, evaluate_guard-decide}
use averlock.Guard.Ledger.Creation.{add_policy-enter}

create_request-nonzero :
    (g : Geth) (json : Json) (calls : Calls) (df : DataFixed) (policy : NormalizedPolicy)
    (commitment : Hash)
    → create_request g json calls df ≡ ok (policy, commitment)
    → policy.rule_id ≢ 0
create_request-nonzero g json calls df policy commitment h =
    let (request, plaintext, wire, _, _, _, normal, _, _) =
      create_request_lem g json calls df policy commitment h in
    let m = (normalize_policy_iff wire policy).0 normal in
    λ zero_rule. m.rule (ground (arith, m.same_rule, zero_rule))

evaluate_request-nonzero :
    (json : Json) (df : DataFixed) (r : EvaluateGuardRequest)
    → evaluate_request json df ≡ ok r
    → r.rule_id ≢ 0
unfolding evaluate_request
evaluate_request-nonzero json df r h = ground (arith, h)

-- a server whose store is the one that newMemoryStore makes
abbrev pub on_memory : Server MemoryStore → Server MemoryStore
on_memory server = record server { state_store = memory_store }

module _ (base : Server MemoryStore) (laws : IsGob base.gob) (calls : Calls) (action : Action)
    (ledger : Ledger) (e : Extension MemoryStore) (shows : Shows ledger e) where
  -- what the server returns with status 200
  abbrev answered : ActionResult × Extension MemoryStore → (ℕ × Body) × Extension MemoryStore
  answered (result, after) = ((200, result_body result), after)

  creation-enter :
      (df : DataFixed)
      → Agrees
          (enter_action (on_memory base) calls action df ledger)
          (answered (creation (on_memory base) calls action e df))
  creation-enter df = elim (Result-cases (create_request base.geth base.json calls df)) [
    | inr (x, refused) ↦
        rw
          (
            process_create_refused memory_store base.geth base.json calls action df e refused,
            enter_refused (on_memory base) calls action ledger df x refused,
          )
          (refl, shows)
    | inl ((policy, commitment), accepted) ↦
        let nonzero =
          create_request-nonzero base.geth base.json calls df policy commitment accepted in
        let (same, shows') = add_policy-enter policy commitment nonzero ledger e shows in
        rw
          (
            process_create_accepted memory_store base.geth base.json calls action df e accepted,
            enter_accepted (on_memory base) calls action ledger df policy commitment accepted,
          )
          (
            ap (λ x. (200, result_body (respond action df (created base.json policy commitment x))))
                same,
            shows',
          )
  ]

  evaluation-decide :
      (df : DataFixed)
      → Agrees
          (decide_action (on_memory base) calls action df ledger)
          (answered (evaluation (on_memory base) calls action e df))
  evaluation-decide df = elim (Result-cases (evaluate_request base.json df)) [
    | inr (x, refused) ↦
        rw
          (
            process_evaluate_refused base.geth memory_store base.json base.gob calls action df e
                refused,
            decide_refused (on_memory base) calls action ledger df x refused,
          )
          (refl, shows)
    | inl (r, accepted) ↦
        let nonzero = evaluate_request-nonzero base.json df r accepted in
        let (same, shows') =
          evaluate_guard-decide base.geth base.gob laws calls r df.timestamp nonzero ledger e
            shows in
        rw
          (
            process_evaluate_accepted base.geth memory_store base.json base.gob calls action df e
                accepted,
            decide_accepted (on_memory base) calls action ledger df r accepted,
          )
          (ap (λ x. (200, result_body (respond action df x))) same, shows')
  ]

  -- An action on the server is the ledger's.
  pub process_action-ledger_action :
      Agrees
        (ledger_action (on_memory base) calls action ledger)
        (process_action (on_memory base) calls action e)
  process_action-ledger_action = elim (process_action-Route (on_memory base) calls action e) [
    | malformed bad is ↦
        rw (is, ledger_malformed (on_memory base) calls action ledger bad) (refl, shows)
    | other_type df parsed other is ↦
        rw (is, ledger_other_type (on_memory base) calls action ledger df parsed other)
          (refl, shows)
    | other_command df parsed right other neither is ↦
        rw
          (
            is,
            ledger_other_command (on_memory base) calls action ledger df parsed right other neither,
          )
          (refl, shows)
    | creates df parsed right create is ↦
        rw (is, ledger_creates (on_memory base) calls action ledger df parsed right create)
          (creation-enter df)
    | evaluates df parsed right other evaluate is ↦
        rw
          (is, ledger_evaluates (on_memory base) calls action ledger df parsed right other evaluate)
          (evaluation-decide df)
  ]

-- A new server shows the empty ledger.
new_Shows : Shows empty_ledger (new_with_dependencies [])
unfolding lookup
new_Shows = record {
  entries = λ rule. refl;
  kept = λ rule p there. absurd (cc there);
  stored = λ rule. refl;
}

answers_agree_from :
    (base : Server MemoryStore) (laws : IsGob base.gob) (actions : List (Calls × Action))
    (ledger : Ledger) (e : Extension MemoryStore)
    → Shows ledger e
    → answers (on_memory base) actions e ≡ ledger_answers (on_memory base) actions ledger
unfolding answers ledger_answers
answers_agree_from base laws [] ledger e shows = refl
answers_agree_from base laws ((calls, action) ∷ rest) ledger e shows =
    let (same, shows') = process_action-ledger_action base laws calls action ledger e shows in
    let left = (process_action (on_memory base) calls action e).1 in
    let right = (ledger_action (on_memory base) calls action ledger).1 in
    rw (same, answers_agree_from base laws rest right left shows') refl

-- The extension server with the memory store implements the ledger: if gob's decoding gives back what
-- it encoded, the answers of a new server to any sequence of actions, whatever their calls return, are those of
-- the empty ledger, which has neither pointers nor clones nor a store beside a cache.
pub answers-ledger_answers :
    (base : Server MemoryStore)
    → IsGob base.gob
    → (actions : List (Calls × Action))
    → answers (on_memory base) actions (new_with_dependencies [])
      ≡ ledger_answers (on_memory base) actions empty_ledger
answers-ledger_answers base laws actions =
    answers_agree_from base laws actions empty_ledger (new_with_dependencies []) new_Shows
