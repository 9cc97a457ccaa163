-- ===== src/Guard/Evaluate/Cases.antt =====
-- The outcomes of an evaluation, with the state that each leaves.
use averlock.Prelude.{
  ℕ, ◌≡◌, none, some, [], ◌∷◌, ◌++◌, arith, Result, ok, err, length, set-append_last, lookup,
  insert, inl, inr, ◌⊎◌, Option-cases, Result-cases, Bytes,
}
use averlock.Ethereum.{Hash, Geth}
use averlock.Policy.{PolicyState}
use averlock.Store.{Ptr, Heap, deref, StoreError, StateStore}
use averlock.Guard.State.{
  EvaluateGuardRequest, Gob, IsGob, clone_policy_state_lem, Failure, Calls, Extension,
  persisting_evaluation, copying_state, Json, Action, DataFixed, respond,
}
use averlock.Guard.Evaluate.{
  Evaluated, evaluate_state, encode_response, record_evaluation, commit_evaluation, evaluate_at,
  evaluate_guard, find_state, load_failure, evaluate_request, process_evaluate_guard,
}

module _ {S : Type 0} (store : StateStore S) (rule : Hash) (e : Extension S) where
  abbrev pub loaded : Result StoreError Ptr × Heap × S
  loaded = store.load rule e.heap e.store

  -- the extension with the loaded policy in memory
  abbrev pub adopted : Ptr → Extension S
  adopted p = record e { policies = insert rule p e.policies; heap = loaded.1; store = loaded.2 }

  -- A policy is in memory, or it is loaded, or it is not found.
  pub find_state_cases :
      ((p : Ptr) × (lookup rule e.policies ≡ some p) × (find_state store rule e ≡ (ok p, e)))
      ⊎ ((lookup rule e.policies ≡ none)
          × (((p : Ptr) × (loaded.0 ≡ ok p) × (find_state store rule e ≡ (ok p, adopted p)))
              ⊎ ((x : StoreError) × (loaded.0 ≡ err x)
                  × (find_state store rule e
                      ≡ (err (load_failure x), record e { heap = loaded.1; store = loaded.2 })))))
  unfolding find_state
  find_state_cases = elim (Option-cases (lookup rule e.policies)) [
    | inl absent ↦ inr (
      absent,
      elim (Result-cases loaded.0) [
        | inl (p, got) ↦ inl (p, got, ground arith)
        | inr (x, failed) ↦ inr (x, failed, ground arith)
      ],
    )
    | inr (p, there) ↦ inl (p, there, ground arith)
  ]

module _ {S : Type 0} (g : Geth) (store : StateStore S) (gob : Gob) (laws : IsGob gob)
    (calls : Calls) (r : EvaluateGuardRequest) (timestamp : ℕ) where
  -- what a save of the new state at the end of the heap gives
  abbrev pub saved : Extension S → Evaluated → Result StoreError (Unit {0}) × S
  saved e ev = store.save r.rule_id (length e.heap) (e.heap ++ ev.state ∷ []) e.store

  abbrev pub Outcome : Extension S → PolicyState → Result Failure Bytes × Extension S → Type 0
  Outcome e v out =
      ((x : Failure) × (evaluate_state calls v r timestamp ≡ err x)
        × (out ≡ (err x, record e { heap = e.heap ++ v ∷ [] })))
      ⊎ ((ev : Evaluated) × (evaluate_state calls v r timestamp ≡ ok ev)
          × (((x : StoreError) × ((saved e ev).0 ≡ err x)
                × (out ≡ (
                  err (persisting_evaluation x),
                  record e { heap = e.heap ++ ev.state ∷ []; store = (saved e ev).1 },
                )))
              ⊎ (((saved e ev).0 ≡ ok tt)
                  × (out ≡ (
                    encode_response g r timestamp ev,
                    record_evaluation r.rule_id (length e.heap) (e.heap ++ ev.state ∷ [])
                        (saved e ev).1 ev e,
                  )))))

  -- An evaluation of the state `v` at `p` ends in one of three ways: it refuses the request, the save
  -- fails, or it is recorded and answered.
  pub evaluate_at_cases :
      (p : Ptr) (e : Extension S) (v : PolicyState)
      → deref e.heap p ≡ some v
      → Outcome e v (evaluate_at g store gob calls r timestamp p e)
  unfolding evaluate_at commit_evaluation
  evaluate_at_cases p e v at =
      let copied = clone_policy_state_lem gob laws v in
      elim (Result-cases (evaluate_state calls v r timestamp)) [
        | inr (x, refused) ↦ inl (x, refused, ground (arith, copied))
        | inl (ev, passed) ↦
            let written = set-append_last e.heap v ev.state in
            elim (Result-cases (saved e ev).0) [
              | inr (x, failed) ↦ inr (ev, passed, inl (x, failed, ground (arith, copied, written)))
              | inl (done, stored) ↦ inr (ev, passed, inr (stored, ground (arith, copied, written)))
            ]
      ]

  -- a pointer to no object
  pub evaluate_at_dangling :
      (p : Ptr) (e : Extension S)
      → deref e.heap p ≡ none
      → evaluate_at g store gob calls r timestamp p e ≡ (err copying_state, e)
  unfolding evaluate_at
  evaluate_at_dangling p e at = ground arith

  -- An evaluation is one of the policy that is found, from the state that finding it leaves.
  pub evaluate_guard_found :
      (e : Extension S) {p : Ptr} {e' : Extension S}
      → find_state store r.rule_id e ≡ (ok p, e')
      → evaluate_guard g store gob calls r timestamp e
        ≡ evaluate_at g store gob calls r timestamp p e'
  unfolding evaluate_guard
  evaluate_guard_found e is = ground arith

  pub evaluate_guard_missing :
      (e : Extension S) {x : Failure} {e' : Extension S}
      → find_state store r.rule_id e ≡ (err x, e')
      → evaluate_guard g store gob calls r timestamp e ≡ (err x, e')
  unfolding evaluate_guard
  evaluate_guard_missing e is = ground arith

module _ {S : Type 0} (g : Geth) (store : StateStore S) (json : Json) (gob : Gob) (calls : Calls)
    (action : Action) (df : DataFixed) (e : Extension S) where
  pub process_evaluate_refused :
      {x : Failure}
      → evaluate_request json df ≡ err x
      → process_evaluate_guard g store json gob calls action df e ≡ (respond action df (err x), e)
  unfolding process_evaluate_guard
  process_evaluate_refused refused = ground arith

  pub process_evaluate_accepted :
      {r : EvaluateGuardRequest}
      → evaluate_request json df ≡ ok r
      → process_evaluate_guard g store json gob calls action df e ≡ (
        respond action df (evaluate_guard g store gob calls r df.timestamp e).0,
        (evaluate_guard g store gob calls r df.timestamp e).1,
      )
  unfolding process_evaluate_guard
  process_evaluate_accepted accepted = ground arith
