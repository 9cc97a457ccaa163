-- ===== src/Guard/Sound/Answers.antt =====
-- Evaluations from a state with the invariant.
use averlock.Prelude.{ℕ, ◌≡◌, [], arith, ok, err, length, lookup, inl, inr, Bytes}
use averlock.Ethereum.{Hash}
use averlock.Decision.{decode}
use averlock.Policy.{PolicyState}
use averlock.Store.{IsKeeper}
use averlock.Guard.State.{EvaluateGuardRequest, Failure, Calls, Extension}
use averlock.Guard.Evaluate.{Evaluated, evaluate_state, encode_response}
use averlock.Guard.Dispatch.{Server, new_with_dependencies}
use averlock.Guard.Outcome.{refused, recorded, Origin, Unchanged, evaluate_guard-Outcome}
use averlock.Guard.Replay.{evaluates, Granted}
use averlock.Guard.Response.{signed_decision, encode_response-decode}
use averlock.Guard.History.Memory.{view_ptr}
use averlock.Guard.History.Actions.{IsServer}
use averlock.Guard.Sound.{
  IsSound, AreTyped, IsTypedRequest, IsSoundEvaluation, evaluate_state-IsSound,
  evaluate_state-IsTyped,
}
use averlock.Guard.Sound.Invariant.{Invariant}

module _ {S : Type 0} (server : Server S) (laws : IsServer server)
    (keeper : IsKeeper server.state_store IsSound) where
  -- a new server on a sound store
  pub new-Invariant : (s : S) → keeper.Good [] s → Invariant keeper (new_with_dependencies s)
  new-Invariant s good = record { memory = λ r p e. absurd (unfold lookup in cc e); kept = good }

  -- the state that a policy is evaluated from is sound
  origin_sound :
      (rule : Hash) (e : Extension S) (v : PolicyState)
      → Invariant keeper e
      → Origin server.state_store rule e v
      → IsSound v
  origin_sound rule e v inv (inl there) =
      let (p, bound, at) = view_ptr rule e.policies e.heap v there in
      let (w, found, own, good) = inv.memory rule p bound in
      let same : v ≡ w = ground arith in rw same good
  origin_sound rule e v inv (inr (p, absent, got, at)) =
      let (w, found, own, good) = keeper.load_kept rule e.heap e.store p inv.kept got in
      let same : v ≡ w = ground arith in rw same good

  module _ (calls : Calls) (typed : AreTyped calls) (r : EvaluateGuardRequest) (timestamp : ℕ)
      (within : IsTypedRequest r timestamp) (e : Extension S) (inv : Invariant keeper e) where
    -- an evaluation that is recorded is answered
    recorded_answer :
        (v : PolicyState) (ev : Evaluated)
        → Origin server.state_store r.rule_id e v
        → evaluate_state calls v r timestamp ≡ ok ev
        → (bytes : Bytes) × (encode_response server.geth r timestamp ev ≡ ok bytes)
          × (length bytes ≡ 352)
          × (decode server.geth bytes ≡ ok (signed_decision server.geth r timestamp ev))
    recorded_answer v ev from passed =
        encode_response-decode server.geth laws.geth_laws r timestamp ev (
          evaluate_state-IsTyped calls v r timestamp ev typed (origin_sound r.rule_id e v inv from)
            within passed)

    pub refusal-Unchanged :
        (x : Failure)
        → (evaluates server calls r timestamp e).0 ≡ err x
        → Unchanged e (evaluates server calls r timestamp e).1
    refusal-Unchanged x failed =
        elim (evaluate_guard-Outcome server.geth server.state_store laws.store_laws server.gob
          laws.gob_laws calls r timestamp e) [
            | refused _ _ same ↦ same
            | recorded v ev from passed answer _ ↦
                let (bytes, answered, _, _) = recorded_answer v ev from passed in
                absurd (ground (arith, answered, answer, failed))
          ]

    pub answer_lem :
        (bytes : Bytes)
        → (granted : Granted server.geth server.state_store laws.store_laws server.gob laws.gob_laws
            calls r timestamp e bytes)
        → decode server.geth bytes ≡ ok (signed_decision server.geth r timestamp granted.evaluated)
    answer_lem bytes granted =
        let (bytes', answered, _, decoded) =
          recorded_answer granted.state granted.evaluated granted.origin granted.passed in
        let same : bytes ≡ bytes' = ground (arith, answered, granted.response) in rw same decoded

    pub granted_sound :
        (bytes : Bytes)
        → (granted : Granted server.geth server.state_store laws.store_laws server.gob laws.gob_laws
            calls r timestamp e bytes)
        → IsSoundEvaluation granted.state granted.evaluated.event_value granted.evaluated
    granted_sound bytes granted =
        evaluate_state-IsSound calls granted.state r timestamp granted.evaluated typed
          (origin_sound r.rule_id e granted.state inv granted.origin) granted.passed
