-- ===== src/Guard/History/Actions.antt =====
-- The policies in memory through each action of the extension server.
use averlock.Prelude.{
  ℕ, ◌≡◌, none, some, List, [], ◌∷◌, ◌++◌, arith, length, lookup, lookup-insert_self, inl, inr,
  Option-cases, Result-cases,
}
use averlock.Ethereum.{Hash, Geth, IsGeth}
use averlock.Policy.{PolicyState, NormalizedPolicy}
use averlock.Store.{Ptr, Heap, deref, StateStore, Grows, IsStore}
use averlock.Guard.State.{
  EvaluateGuardRequest, Json, Gob, IsGob, Calls, Extension, Action, DataFixed,
}
use averlock.Guard.Evaluate.{
  evaluate_at, evaluate_guard, find_state, process_evaluate_guard, evaluate_request,
  record_evaluation,
}
use averlock.Guard.Evaluate.Cases.{
  adopted, find_state_cases, evaluate_at_cases, evaluate_at_dangling, evaluate_guard_found,
  evaluate_guard_missing, process_evaluate_refused, process_evaluate_accepted,
}
use averlock.Guard.Create.Cases.{
  save_policy_cases, existing, add_policy_cases, process_create_refused, process_create_accepted,
}
use averlock.Guard.Create.{
  add_policy, save_policy, process_create_policy, new_policy_state, create_request,
}
use averlock.Guard.Dispatch.Routes.{
  malformed, other_type, creates, evaluates, other_command, process_action-Route,
}
use averlock.Guard.Dispatch.{Server, process_action, run}
use averlock.Guard.History.Evolves.{evaluate_state-Evolves}
use averlock.Guard.History.Memory.{
  Keeps, Keeps-trans, Grows-append, Grows-trans, KeepsView-Grows, KeepsView-adopt,
  KeepsView-replace,
}

module _ {S : Type 0} (store : StateStore S) (law : IsStore store) where
  -- finding a policy changes no policy in memory
  find_state-Keeps : (rule : Hash) (e : Extension S) → Keeps e (find_state store rule e).1
  find_state-Keeps rule e = elim (find_state_cases store rule e) [
    | inl (p, there, is) ↦ rw is (KeepsView-Grows e.policies e.heap e.heap (λ q v h. h))
    | inr (absent, inl (p, got, is)) ↦
        rw is
          (KeepsView-adopt e.policies e.heap _ rule p absent (law.load_grows rule e.heap e.store))
    | inr (absent, inr (x, failed, is)) ↦
        rw is (KeepsView-Grows e.policies e.heap _ (law.load_grows rule e.heap e.store))
  ]

  module _ (g : Geth) (gob : Gob) (laws : IsGob gob) (calls : Calls) where
    evaluate_at-Keeps :
        (r : EvaluateGuardRequest) (timestamp : ℕ) (p : Ptr) (e : Extension S) (v : PolicyState)
        → lookup r.rule_id e.policies ≡ some p
        → deref e.heap p ≡ some v
        → Keeps e (evaluate_at g store gob calls r timestamp p e).1
    unfolding record_evaluation
    evaluate_at-Keeps r timestamp p e v there at =
        elim (evaluate_at_cases g store gob laws calls r timestamp p e v at) [
          | inl (x, _, is) ↦ rw is (KeepsView-Grows e.policies e.heap _ (Grows-append e.heap v))
          | inr (ev, _, inl (x, _, is)) ↦
              rw is (KeepsView-Grows e.policies e.heap _ (Grows-append e.heap ev.state))
          | inr (ev, passed, inr (_, is)) ↦ rw is (
              KeepsView-replace e.policies e.heap r.rule_id ev.state (λ w found.
                let same : w ≡ v = ground arith in
                rw same (evaluate_state-Evolves calls v r timestamp ev passed)))
        ]

    evaluate_found-Keeps :
        (r : EvaluateGuardRequest) (timestamp : ℕ) (p : Ptr) (e : Extension S)
        → lookup r.rule_id e.policies ≡ some p
        → Keeps e (evaluate_at g store gob calls r timestamp p e).1
    evaluate_found-Keeps r timestamp p e there = elim (Option-cases (deref e.heap p)) [
      | inl none_at ↦
          rw (evaluate_at_dangling g store gob laws calls r timestamp p e none_at)
            (KeepsView-Grows e.policies e.heap e.heap (λ q v h. h))
      | inr (v, at) ↦ evaluate_at-Keeps r timestamp p e v there at
    ]

    pub evaluate_guard-Keeps :
        (r : EvaluateGuardRequest) (timestamp : ℕ) (e : Extension S)
        → Keeps e (evaluate_guard g store gob calls r timestamp e).1
    evaluate_guard-Keeps r timestamp e =
        let found = find_state-Keeps r.rule_id e in
        elim (find_state_cases store r.rule_id e) [
          | inl (p, there, is) ↦
              rw (evaluate_guard_found g store gob laws calls r timestamp e is)
                (evaluate_found-Keeps r timestamp p e there)
          | inr (absent, inl (p, got, is)) ↦
              let e' = adopted store r.rule_id e p in
              rw (evaluate_guard_found g store gob laws calls r timestamp e is) (
                Keeps-trans e e' (evaluate_at g store gob calls r timestamp p e').1 (rw is at found)
                  (evaluate_found-Keeps r timestamp p e'
                    (lookup-insert_self r.rule_id p e.policies)))
          | inr (absent, inr (x, failed, is)) ↦
              rw (evaluate_guard_missing g store gob laws calls r timestamp e is) (rw is at found)
        ]

  allocated :
      (policy : NormalizedPolicy) (commitment : Hash) (e : Extension S)
      → Grows e.heap (existing store policy commitment e).1
  allocated policy commitment e =
      let h = e.heap ++ new_policy_state policy commitment ∷ [] in
      Grows-trans e.heap h _ (Grows-append e.heap (new_policy_state policy commitment))
        (law.load_grows policy.rule_id h e.store)

  save_policy-Keeps :
      (rule : Hash) (p : Ptr) (h : Heap) (s : S) (e : Extension S)
      → lookup rule e.policies ≡ none
      → Grows e.heap h
      → Keeps e (save_policy store rule p h s e).1
  save_policy-Keeps rule p h s e absent grows = elim (save_policy_cases store rule p h s e) [
    | inl (x, _, is) ↦ rw is (KeepsView-Grows e.policies e.heap h grows)
    | inr (_, is) ↦ rw is (KeepsView-adopt e.policies e.heap h rule p absent grows)
  ]

  pub add_policy-Keeps :
      (policy : NormalizedPolicy) (commitment : Hash) (e : Extension S)
      → Keeps e (add_policy store policy commitment e).1
  add_policy-Keeps policy commitment e = elim (add_policy_cases store policy commitment e) [
    | inl (_, is) ↦ rw is (KeepsView-Grows e.policies e.heap e.heap (λ q v h. h))
    | inr (absent, inl (x, _, is)) ↦
        rw is (KeepsView-Grows e.policies e.heap _ (allocated policy commitment e))
    | inr (absent, inr (_, is)) ↦ rw is (
        save_policy-Keeps policy.rule_id (length e.heap) _ _ e absent
          (allocated policy commitment e))
  ]

  pub process_create_policy-Keeps :
      (g : Geth) (json : Json) (calls : Calls) (action : Action) (df : DataFixed) (e : Extension S)
      → Keeps e (process_create_policy store g json calls action df e).1
  process_create_policy-Keeps g json calls action df e =
      elim (Result-cases (create_request g json calls df)) [
        | inr (x, refused) ↦
            rw (process_create_refused store g json calls action df e refused)
              (KeepsView-Grows e.policies e.heap e.heap (λ q v h. h))
        | inl ((policy, commitment), accepted) ↦
            rw (process_create_accepted store g json calls action df e accepted)
              (add_policy-Keeps policy commitment e)
      ]

  pub process_evaluate_guard-Keeps :
      (g : Geth) (json : Json) (gob : Gob)
      → IsGob gob
      → (calls : Calls) (action : Action) (df : DataFixed) (e : Extension S)
      → Keeps e (process_evaluate_guard g store json gob calls action df e).1
  process_evaluate_guard-Keeps g json gob laws calls action df e =
      elim (Result-cases (evaluate_request json df)) [
        | inr (x, refused) ↦
            rw (process_evaluate_refused g store json gob calls action df e refused)
              (KeepsView-Grows e.policies e.heap e.heap (λ q v h. h))
        | inl (r, accepted) ↦
            rw (process_evaluate_accepted g store json gob calls action df e accepted)
              (evaluate_guard-Keeps g gob laws calls r df.timestamp e)
      ]

-- The parts of a server that are not its own code behave as documented.
pub record IsServer {S : Type 0} (server : Server S) : Type 0 where
  pub geth_laws : IsGeth server.geth
  pub gob_laws : IsGob server.gob
  pub store_laws : IsStore server.state_store

module _ {S : Type 0} (server : Server S) (laws : IsServer server) where
  pub process_action-Keeps :
      (calls : Calls) (action : Action) (e : Extension S)
      → Keeps e (process_action server calls action e).1
  process_action-Keeps calls action e = elim (process_action-Route server calls action e) [
    | malformed _ is ↦ rw is (KeepsView-Grows e.policies e.heap e.heap (λ q v h. h))
    | other_type _ _ _ is ↦ rw is (KeepsView-Grows e.policies e.heap e.heap (λ q v h. h))
    | other_command _ _ _ _ _ is ↦ rw is (KeepsView-Grows e.policies e.heap e.heap (λ q v h. h))
    | creates df _ _ _ is ↦ rw is (
        process_create_policy-Keeps server.state_store laws.store_laws server.geth server.json calls
          action df e)
    | evaluates df _ _ _ _ is ↦ rw is (
        process_evaluate_guard-Keeps server.state_store laws.store_laws server.geth server.json
          server.gob laws.gob_laws calls action df e)
  ]

  -- On a server whose parts behave as documented, no sequence of actions, whatever it is answered,
  -- loses a policy in memory, changes its policy or commitment, forgets a nonce that it has used,
  -- or changes or loses a decision that it has made (except for the expiry of the decision).
  pub run-Keeps :
      (actions : List (Calls × Action)) (e : Extension S) → Keeps e (run server actions e)
  unfolding run
  run-Keeps [] e = KeepsView-Grows e.policies e.heap e.heap (λ q v h. h)
  run-Keeps ((calls, action) ∷ rest) e =
      let e' = (process_action server calls action e).1 in
      Keeps-trans e e' (run server rest e') (process_action-Keeps calls action e)
        (run-Keeps rest e')
