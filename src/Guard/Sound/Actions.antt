-- ===== src/Guard/Sound/Actions.antt =====
-- The invariant through each action of the extension server.
use averlock.Prelude.{◌≡◌, List, [], ◌∷◌, ok, inl, inr, Result-cases}
use averlock.Ethereum.{Hash, Geth}
use averlock.Policy.{NormalizedPolicy}
use averlock.Policy.Normalize.{IsValid, normalize_policy-IsValid}
use averlock.Store.{IsKeeper}
use averlock.Guard.State.{Json, Calls, Extension, Action, DataFixed}
use averlock.Guard.Evaluate.{evaluate_request}
use averlock.Guard.Evaluate.Cases.{process_evaluate_refused, process_evaluate_accepted}
use averlock.Guard.Create.{create_request}
use averlock.Guard.Create.Cases.{
  create_request_lem, process_create_refused, process_create_accepted,
}
use averlock.Guard.Dispatch.{Server, process_action, run}
use averlock.Guard.Dispatch.Routes.{
  malformed, other_type, creates, evaluates, other_command, process_action-Route,
}
use averlock.Guard.History.Actions.{IsServer}
use averlock.Guard.Sound.{IsSound, AreTyped}
use averlock.Guard.Sound.Invariant.{Invariant}
use averlock.Guard.Sound.Handlers.{evaluate_guard-Invariant, add_policy-Invariant}

create_request-IsValid :
    (g : Geth) (json : Json) (calls : Calls) (df : DataFixed) (policy : NormalizedPolicy)
    (commitment : Hash)
    → create_request g json calls df ≡ ok (policy, commitment)
    → IsValid policy
create_request-IsValid g json calls df policy commitment h =
    let (request, plaintext, wire, _, _, _, normal, _, _) =
      create_request_lem g json calls df policy commitment h in
    normalize_policy-IsValid wire policy normal

module _ {S : Type 0} (server : Server S) (laws : IsServer server)
    (keeper : IsKeeper server.state_store IsSound) where
  pub process_action-Invariant :
      (calls : Calls) (action : Action) (e : Extension S)
      → AreTyped calls
      → Invariant keeper e
      → Invariant keeper (process_action server calls action e).1
  process_action-Invariant calls action e typed inv =
      elim (process_action-Route server calls action e) [
        | malformed _ is ↦ rw is inv
        | other_type _ _ _ is ↦ rw is inv
        | other_command _ _ _ _ _ is ↦ rw is inv
        | creates df _ _ _ is ↦
            rw is (elim (Result-cases (create_request server.geth server.json calls df)) [
              | inr (x, refused) ↦
                  rw
                    (process_create_refused server.state_store server.geth server.json calls action
                      df e refused)
                    inv
              | inl ((policy, commitment), accepted) ↦
                  rw
                    (process_create_accepted server.state_store server.geth server.json calls action
                      df e accepted)
                    (add_policy-Invariant laws.store_laws keeper policy commitment
                      (create_request-IsValid server.geth server.json calls df policy commitment
                        accepted)
                      e inv)
            ])
        | evaluates df _ _ _ _ is ↦ rw is (elim (Result-cases (evaluate_request server.json df)) [
          | inr (x, refused) ↦
              rw
                (process_evaluate_refused server.geth server.state_store server.json server.gob
                  calls action df e refused)
                inv
          | inl (r, accepted) ↦
              rw
                (process_evaluate_accepted server.geth server.state_store server.json server.gob
                  calls action df e accepted)
                (evaluate_guard-Invariant laws.store_laws keeper server.geth server.gob
                  laws.gob_laws calls typed r df.timestamp e inv)
        ])
      ]

  -- the calls of every action are typed
  abbrev pub AllTyped : List (Calls × Action) → Type 0
  AllTyped [] = Unit
  AllTyped ((calls, _) ∷ rest) = AreTyped calls × AllTyped rest

  pub run-Invariant :
      (actions : List (Calls × Action)) (e : Extension S)
      → AllTyped actions
      → Invariant keeper e
      → Invariant keeper (run server actions e)
  unfolding run
  run-Invariant [] e typed inv = inv
  run-Invariant ((calls, action) ∷ rest) e (typed, all_typed) inv =
      run-Invariant rest (process_action server calls action e).1 all_typed
        (process_action-Invariant calls action e typed inv)
