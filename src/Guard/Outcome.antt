-- ===== src/Guard/Outcome.antt =====
-- The two outcomes of processEvaluateGuard, by the policies in memory.
use averlock.Prelude.{
  ℕ, ◌+◌, ◌≡◌, ◌≢◌, refl, none, some, [], ◌∷◌, ◌++◌, arith, Result, ok, err, length, lookup, insert,
  lookup-insert, lookup-insert_self, get_elem?-append_last, inl, inr, ◌⊎◌, Option-cases, Bytes, not,
  ◌&&◌, ==_iff, Map, if◌then◌else◌,
}
use averlock.Ethereum.{Hash, Geth}
use averlock.Policy.{PolicyState}
use averlock.Store.{Ptr, Heap, deref, StateStore, Grows, IsStore}
use averlock.Guard.State.{
  EvaluateGuardRequest, Gob, IsGob, Failure, Calls, Extension, copying_state,
}
use averlock.Guard.Evaluate.{
  Evaluated, evaluate_state, encode_response, evaluate_at, evaluate_guard, record_evaluation,
}
use averlock.Guard.Evaluate.Cases.{
  loaded, adopted, find_state_cases, evaluate_at_cases, evaluate_at_dangling, evaluate_guard_found,
  evaluate_guard_missing,
}
use averlock.Guard.History.Memory.{view, state_at, view_ptr, Grows-append}

-- Every policy in memory keeps its state.
abbrev pub SameView : Map Ptr → Heap → Map Ptr → Heap → Type 0
SameView ps h ps' h' =
    (rule : Hash) (v : PolicyState) → view rule ps h ≡ some v → view rule ps' h' ≡ some v

pub SameView-Grows : (ps : Map Ptr) (h h' : Heap) → Grows h h' → SameView ps h ps h'
SameView-Grows ps h h' grows rule v found =
    let (p, there, at) = view_ptr rule ps h v found in ground (arith, grows p v at)

pub SameView-adopt :
    (ps : Map Ptr) (h h' : Heap) (k : Hash) (q : Ptr)
    → lookup k ps ≡ none
    → Grows h h'
    → SameView ps h (insert k q ps) h'
SameView-adopt ps h h' k q new grows rule v found =
    let (p, there, at) = view_ptr rule ps h v found in
    ground (arith, grows p v at, lookup-insert k rule q ps)

view_other :
    (ps : Map Ptr) (h h' : Heap) (k rule : Hash) (q : Ptr) (v : PolicyState)
    → rule ≢ k
    → Grows h h'
    → view rule ps h ≡ some v
    → view rule (insert k q ps) h' ≡ some v
view_other ps h h' k rule q v ne grows found =
    let (p, there, at) = view_ptr rule ps h v found in
    ground (arith, grows p v at, lookup-insert k rule q ps, ==_iff rule k)

view_new :
    (ps : Map Ptr) (h : Heap) (k : Hash) (w : PolicyState)
    → view k (insert k (length h) ps) (h ++ w ∷ []) ≡ some w
view_new ps h k w = ground (arith, lookup-insert_self k (length h) ps, get_elem?-append_last h w)

module _ {S : Type 0} where
  -- No policy in memory has changed, and neither counter has.
  pub record Unchanged (e e' : Extension S) : Type 0 where
    pub same : SameView e.policies e.heap e'.policies e'.heap
    pub evaluations : e'.evaluation_count ≡ e.evaluation_count
    pub triggers : e'.successful_triggers ≡ e.successful_triggers

  -- The policy `k` has the state of the evaluation, each other one has kept its own, and the
  -- evaluation is counted, as a trigger if it is the first decision of a triggered event.
  pub record Recorded (k : Hash) (ev : Evaluated) (e e' : Extension S) : Type 0 where
    pub own : state_at k e' ≡ some ev.state
    pub others :
        (rule : Hash) (v : PolicyState)
        → rule ≢ k
        → state_at rule e ≡ some v
        → state_at rule e' ≡ some v
    pub evaluations : e'.evaluation_count ≡ e.evaluation_count + 1
    pub triggers : e'.successful_triggers ≡ (
        if ev.authorization.triggered && not ev.refreshing
        then e.successful_triggers + 1
        else e.successful_triggers)

  -- The state of the policy, in memory or else in the store.
  abbrev pub Origin : StateStore S → Hash → Extension S → PolicyState → Type 0
  Origin store rule e v =
      (state_at rule e ≡ some v)
      ⊎ ((p : Ptr) × (lookup rule e.policies ≡ none)
          × ((loaded store rule e).0 ≡ ok p)
          × (deref (loaded store rule e).1 p ≡ some v))

module _ {S : Type 0} (g : Geth) (store : StateStore S) (law : IsStore store) (gob : Gob)
    (laws : IsGob gob) (calls : Calls) (r : EvaluateGuardRequest) (timestamp : ℕ) where
  pub data Outcome (e : Extension S) (out : Result Failure Bytes × Extension S) : Type 0 where
    refused : (x : Failure) → out.0 ≡ err x → Unchanged e out.1 → Outcome e out
    recorded :
        (v : PolicyState) (ev : Evaluated)
        → Origin store r.rule_id e v
        → evaluate_state calls v r timestamp ≡ ok ev
        → out.0 ≡ encode_response g r timestamp ev
        → Recorded r.rule_id ev e out.1
        → Outcome e out

  -- from the object that was found, where finding it has changed nothing
  found_Outcome :
      (p : Ptr) (e e' : Extension S)
      → Unchanged e e'
      → ((v : PolicyState) → deref e'.heap p ≡ some v → Origin store r.rule_id e v)
      → Outcome e (evaluate_at g store gob calls r timestamp p e')
  unfolding record_evaluation
  found_Outcome p e e' un from = elim (Option-cases (deref e'.heap p)) [
    | inl dangling ↦
        rw (evaluate_at_dangling g store gob laws calls r timestamp p e' dangling)
          (refused copying_state refl un)
    | inr (v, at) ↦ elim (evaluate_at_cases g store gob laws calls r timestamp p e' v at) [
      | inl (x, _, is) ↦ rw is (
          refused x refl (record {
            same = λ rule w f.
                SameView-Grows e'.policies e'.heap _ (Grows-append e'.heap v) rule w
                  (un.same rule w f);
            evaluations = un.evaluations;
            triggers = un.triggers;
          }))
      | inr (ev, passed, inl (x, _, is)) ↦ rw is (
          refused _ refl (record {
            same = λ rule w f.
                SameView-Grows e'.policies e'.heap _ (Grows-append e'.heap ev.state) rule w
                  (un.same rule w f);
            evaluations = un.evaluations;
            triggers = un.triggers;
          }))
      | inr (ev, passed, inr (_, is)) ↦ rw is (
          recorded v ev (from v at) passed refl (record {
            own = view_new e'.policies e'.heap r.rule_id ev.state;
            others = λ rule w ne f.
                view_other e'.policies e'.heap _ r.rule_id rule (length e'.heap) w ne
                  (Grows-append e'.heap ev.state) (un.same rule w f);
            evaluations = ground (arith, un.evaluations);
            triggers = ground (arith, un.triggers);
          }))
    ]
  ]

  -- An evaluation is refused and leaves every policy in memory and the counters as they were, or it
  -- is recorded from the state that the policy had.
  pub evaluate_guard-Outcome :
      (e : Extension S) → Outcome e (evaluate_guard g store gob calls r timestamp e)
  evaluate_guard-Outcome e =
      let grows = law.load_grows r.rule_id e.heap e.store in
      elim (find_state_cases store r.rule_id e) [
        | inl (p, there, is) ↦ rw (evaluate_guard_found g store gob laws calls r timestamp e is) (
            found_Outcome p e e
              (record { same = λ rule w f. f; evaluations = refl; triggers = refl })
              (λ v at. inl (ground arith)))
        | inr (absent, inl (p, got, is)) ↦
            rw (evaluate_guard_found g store gob laws calls r timestamp e is) (
              found_Outcome p e (adopted store r.rule_id e p)
                (record {
                  same = SameView-adopt e.policies e.heap _ r.rule_id p absent grows;
                  evaluations = refl;
                  triggers = refl;
                })
                (λ v at. inr (p, absent, got, at)))
        | inr (absent, inr (x, failed, is)) ↦
            rw (evaluate_guard_missing g store gob laws calls r timestamp e is) (
              refused _ refl (record {
                same = SameView-Grows e.policies e.heap _ grows;
                evaluations = refl;
                triggers = refl;
              }))
      ]
