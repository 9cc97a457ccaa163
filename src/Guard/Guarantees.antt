-- ===== src/Guard/Guarantees.antt =====
-- The extension server as its clients see it: evaluations after any sequence of actions on a new one.
use averlock.Prelude.{ℕ, ◌≤◌, ◌≡◌, refl, some, List, [], arith, ok, err, Bytes, false, pos}
use averlock.Ethereum.{Geth}
use averlock.Guard.Evaluate.{Evaluated}
use averlock.Decision.{FccDecision, decode}
use averlock.Store.{IsKeeper}
use averlock.Guard.State.{
  Extension, EvaluateGuardRequest, Failure, Calls, Action, result_validity_seconds, add64,
}
use averlock.Guard.Dispatch.{Server, run, new_with_dependencies}
use averlock.Guard.Outcome.{Unchanged}
use averlock.Guard.Replay.{
  evaluates, decision_kept, Granted, evaluate_guard-Granted, evaluate_state-notes,
}
use averlock.Guard.Response.{signed_decision, told}
use averlock.Guard.History.Evolves.{SameDecision}
use averlock.Guard.History.Actions.{IsServer}
use averlock.Guard.Sound.{IsSound, AreTyped, IsTypedRequest}
use averlock.Guard.Sound.Invariant.{Invariant}
use averlock.Guard.Sound.Handlers.{evaluate_guard-Invariant}
use averlock.Guard.Sound.Actions.{AllTyped, run-Invariant}
use averlock.Guard.Sound.Answers.{new-Invariant, refusal-Unchanged, answer_lem, granted_sound}

-- what a decision tells of a request
pub record Answers (r : EvaluateGuardRequest) (timestamp : ℕ) (d : FccDecision) : Type 0 where
  pub value : ℕ
  pub protected : ℕ
  pub same_rule : d.rule_id ≡ r.rule_id
  pub same_event : d.event_hash ≡ r.event_hash
  pub same_nonce : d.nonce ≡ some (pos r.nonce)
  pub same_time : d.evaluated_at ≡ timestamp
  pub expiry : d.result_expiry ≡ add64 timestamp result_validity_seconds
  pub same_value : d.event_value_usd18 ≡ some (pos value)
  pub same_protected : d.protected_usd18 ≡ some (pos protected)
  pub protected_le : protected ≤ value
  pub bps_le : d.protect_bps ≤ 10_000
  pub nothing : d.triggered ≡ false → protected ≡ 0

-- Two decisions tell the same.
pub record SameTold (d d' : FccDecision) : Type 0 where
  pub same_triggered : d'.triggered ≡ d.triggered
  pub same_protected : d'.protected_usd18 ≡ d.protected_usd18
  pub same_bps : d'.protect_bps ≡ d.protect_bps
  pub same_schedule : d'.schedule_id ≡ d.schedule_id
  pub same_value : d'.event_value_usd18 ≡ d.event_value_usd18

same_told :
    (g : Geth) (r r' : EvaluateGuardRequest) (at at' : ℕ) (ev ev' : Evaluated)
    → SameDecision ev.authorization ev'.authorization
    → ev.authorization.event_value_usd18 ≡ ev.event_value
    → ev'.authorization.event_value_usd18 ≡ ev'.event_value
    → SameTold (signed_decision g r at ev) (signed_decision g r' at' ev')
unfolding signed_decision
same_told g r r' at at' ev ev' kept value value' = record {
  same_triggered = kept.triggered;
  same_protected = ground (arith, kept.triggered, kept.protected);
  same_bps = ground (arith, kept.triggered, kept.bps);
  same_schedule = ground (arith, kept.triggered, kept.schedule);
  same_value = ground (arith, kept.value, value, value');
}

module _ {S : Type 0} (server : Server S) (laws : IsServer server)
    (keeper : IsKeeper server.state_store IsSound) (s : S) (good : keeper.Good [] s)
    (before : List (Calls × Action)) (typed_before : AllTyped server laws keeper before)
    (calls : Calls) (typed : AreTyped calls) (r : EvaluateGuardRequest) (timestamp : ℕ)
    (within : IsTypedRequest r timestamp) where
  abbrev reached : Extension S
  reached = run server before (new_with_dependencies s)

  reached_sound : Invariant keeper reached
  reached_sound =
      run-Invariant server laws keeper before (new_with_dependencies s) typed_before
        (new-Invariant server laws keeper s good)

  -- On a new server whose parts behave as documented and whose store keeps sound states, with
  -- numbers within their Go types: an evaluation that is answered with an error, after any actions,
  -- has changed no policy in memory and neither counter.
  pub failed_evaluation-Unchanged :
      (x : Failure)
      → (evaluates server calls r timestamp reached).0 ≡ err x
      → Unchanged reached (evaluates server calls r timestamp reached).1
  failed_evaluation-Unchanged =
      refusal-Unchanged server laws keeper calls typed r timestamp within reached reached_sound

  module _ (bytes : Bytes)
      (answered : (evaluates server calls r timestamp reached).0 ≡ ok bytes) where
    granted :
        Granted server.geth server.state_store laws.store_laws server.gob laws.gob_laws calls r
          timestamp reached bytes
    granted =
        evaluate_guard-Granted server.geth server.state_store laws.store_laws server.gob
          laws.gob_laws calls r timestamp reached bytes answered

    -- On a new server whose parts behave as documented and whose store keeps sound states, with
    -- numbers within their Go types, an answer that is given after any actions decodes to a
    -- decision on the request: on its rule, event, nonce and time, valid until the uint64 sum of
    -- the time and 600 seconds, with a share of at most 10000 basis points, protecting at most the
    -- value of the event, and nothing if the event does not trigger.
    pub answer-Answers :
        (d : FccDecision) × (decode server.geth bytes ≡ ok d) × Answers r timestamp d
    unfolding signed_decision
    answer-Answers =
        let ev = granted.evaluated in
        let a = ev.authorization in
        let sound =
          granted_sound server laws keeper calls typed r timestamp within reached reached_sound
            bytes granted in
        (
          signed_decision server.geth r timestamp ev,
          answer_lem server laws keeper calls typed r timestamp within reached reached_sound bytes
              granted,
          record {
            value = ev.event_value;
            protected = told a a.protected_usd18;
            same_rule = refl;
            same_event = refl;
            same_nonce = refl;
            same_time = refl;
            expiry = (evaluate_state-notes calls granted.state r timestamp ev granted.passed).2;
            same_value = refl;
            same_protected = refl;
            protected_le = ground (arith, sound.authorization.protected_le, sound.same_value);
            bps_le = ground (arith, sound.authorization.bps_le);
            nothing = λ off. rw off refl;
          },
        )

    -- The decision for an event is taken once: on a new server whose parts behave as documented and
    -- whose store keeps sound states, with numbers within their Go types, if an evaluation is
    -- answered after any actions, and one of the same rule and event is answered after any further
    -- actions, both answers decode, to the same outcome, amount, share, schedule and value.
    pub answers_agree :
        (between : List (Calls × Action))
        → AllTyped server laws keeper between
        → (calls' : Calls) (typed' : AreTyped calls') (r' : EvaluateGuardRequest) (at' : ℕ)
          (within' : IsTypedRequest r' at') (bytes' : Bytes)
        → let later = run server between (evaluates server calls r timestamp reached).1 in
          (evaluates server calls' r' at' later).0 ≡ ok bytes'
          → r'.rule_id ≡ r.rule_id
          → r'.event_hash ≡ r.event_hash
          → (d : FccDecision) × (d' : FccDecision) × (decode server.geth bytes ≡ ok d)
            × (decode server.geth bytes' ≡ ok d')
            × SameTold d d'
    answers_agree between typed_between calls' typed' r' at' within' bytes' answered' rule event =
        let first = (evaluates server calls r timestamp reached).1 in
        let later = run server between first in
        let sound = run-Invariant server laws keeper between first typed_between (
          evaluate_guard-Invariant laws.store_laws keeper server.geth server.gob laws.gob_laws calls
            typed r timestamp reached reached_sound) in
        let granted' =
          evaluate_guard-Granted server.geth server.state_store laws.store_laws server.gob
            laws.gob_laws calls' r' at' later bytes' answered' in
        let kept =
          decision_kept server laws calls calls' r r' timestamp at' bytes bytes' reached between
            granted granted' rule event in
        (
          signed_decision server.geth r timestamp granted.evaluated,
          signed_decision server.geth r' at' granted'.evaluated,
          answer_lem server laws keeper calls typed r timestamp within reached reached_sound bytes
              granted,
          answer_lem server laws keeper calls' typed' r' at' within' later sound bytes' granted',
          same_told server.geth r r' timestamp at' granted.evaluated granted'.evaluated kept
              (granted_sound server laws keeper calls typed r timestamp within reached reached_sound
                bytes granted).same_value
              (granted_sound server laws keeper calls' typed' r' at' within' later sound bytes'
                granted').same_value,
        )
