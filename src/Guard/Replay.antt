-- ===== src/Guard/Replay.antt =====
-- Evaluations of processEvaluateGuard that come after an answered one, with any actions in between.
use averlock.Prelude.{
  ℕ, ◌<◌, ◌≡◌, some, List, arith, Result, ok, err, lookup, lookup-insert_self, inl, inr, ◌⊎◌, Bytes,
}
use averlock.Ethereum.{Geth}
use averlock.Policy.{PolicyState}
use averlock.Store.{StateStore, IsStore}
use averlock.Guard.State.{
  EvaluateGuardRequest, Gob, IsGob, Failure, Calls, Extension, Action, policy_expired, nonce_replay,
  add64, result_validity_seconds,
}
use averlock.Guard.Evaluate.{
  Evaluated, evaluate_state, encode_response, evaluate_guard, stamp, first_decision,
}
use averlock.Guard.Evaluate.Cases.{find_state_cases, evaluate_at_cases, evaluate_guard_found}
use averlock.Guard.Dispatch.{Server, run}
use averlock.Guard.Outcome.{refused, recorded, Origin, Recorded, evaluate_guard-Outcome}
use averlock.Guard.History.Evolves.{
  Evolves-trans, SameDecision, evaluate_state_lem, evaluate_state-Evolves, authorize_cases,
}
use averlock.Guard.History.Memory.{state_at}
use averlock.Guard.History.Actions.{IsServer, run-Keeps}

-- The new state has the nonce, and the authorization of the event, valid for another 600 seconds.
pub evaluate_state-notes :
    (calls : Calls) (v : PolicyState) (r : EvaluateGuardRequest) (timestamp : ℕ) (ev : Evaluated)
    → evaluate_state calls v r timestamp ≡ ok ev
    → (lookup r.nonce ev.state.used_nonces ≡ some tt)
      × (lookup r.event_hash ev.state.authorizations ≡ some ev.authorization)
      × (ev.authorization.last_expiry ≡ add64 timestamp result_validity_seconds)
unfolding first_decision stamp
evaluate_state-notes calls v r timestamp ev h =
    let (s, value, _, _, authorized) = (evaluate_state_lem calls v r timestamp ev h).2 in
    elim (authorize_cases r timestamp value v (lookup r.event_hash v.authorizations) ev
      authorized) [
        | inl (fresh, made) ↦ ground (
          arith,
          made,
          lookup-insert_self r.nonce tt v.used_nonces,
          lookup-insert_self r.event_hash ev.authorization v.authorizations,
        )
        | inr (x, present, _, _, made) ↦ ground (
          arith,
          made,
          lookup-insert_self r.nonce tt v.used_nonces,
          lookup-insert_self r.event_hash ev.authorization v.authorizations,
        )
      ]

-- a nonce that the state has is refused
pub evaluate_state-used :
    (calls : Calls) (v : PolicyState) (r : EvaluateGuardRequest) (timestamp : ℕ)
    → lookup r.nonce v.used_nonces ≡ some tt
    → (evaluate_state calls v r timestamp ≡ err policy_expired)
      ⊎ (evaluate_state calls v r timestamp ≡ err nonce_replay)
unfolding evaluate_state
evaluate_state-used calls v r timestamp used = ground arith

module _ {S : Type 0} (g : Geth) (store : StateStore S) (law : IsStore store) (gob : Gob)
    (laws : IsGob gob) where
  -- what was found and recorded by an evaluation that was answered
  pub record Granted (calls : Calls) (r : EvaluateGuardRequest) (timestamp : ℕ) (e : Extension S)
      (bytes : Bytes) : Type 0 where
    pub state : PolicyState
    pub evaluated : Evaluated
    pub origin : Origin store r.rule_id e state
    pub passed : evaluate_state calls state r timestamp ≡ ok evaluated
    pub response : encode_response g r timestamp evaluated ≡ ok bytes
    pub done : Recorded r.rule_id evaluated e (evaluate_guard g store gob calls r timestamp e).1

  pub evaluate_guard-Granted :
      (calls : Calls) (r : EvaluateGuardRequest) (timestamp : ℕ) (e : Extension S) (bytes : Bytes)
      → (evaluate_guard g store gob calls r timestamp e).0 ≡ ok bytes
      → Granted calls r timestamp e bytes
  evaluate_guard-Granted calls r timestamp e bytes answered =
      elim (evaluate_guard-Outcome g store law gob laws calls r timestamp e) [
        | refused x failed _ ↦ absurd (ground arith)
        | recorded v ev from passed response done ↦ record {
          state = v;
          evaluated = ev;
          origin = from;
          passed = passed;
          response = ground arith;
          done = done;
        }
      ]

  -- a policy in memory is evaluated from its state
  pub evaluate_guard_refused :
      (calls : Calls) (r : EvaluateGuardRequest) (timestamp : ℕ) (e : Extension S) (v : PolicyState)
      (x : Failure)
      → state_at r.rule_id e ≡ some v
      → evaluate_state calls v r timestamp ≡ err x
      → (evaluate_guard g store gob calls r timestamp e).0 ≡ err x
  evaluate_guard_refused calls r timestamp e v x there fails =
      elim (find_state_cases store r.rule_id e) [
        | inr (absent, _) ↦ absurd (ground arith)
        | inl (p, found, is) ↦
            rw (evaluate_guard_found g store gob laws calls r timestamp e is)
              (elim (evaluate_at_cases g store gob laws calls r timestamp p e v (ground arith)) [
                | inl (y, failed, out) ↦ rw out (ground arith)
                | inr (ev, passed, _) ↦ absurd (ground arith)
              ])
      ]

-- an evaluation by a server
abbrev pub evaluates :
    {S : Type 0}
    → Server S
    → Calls
    → EvaluateGuardRequest
    → ℕ
    → Extension S
    → Result Failure Bytes × Extension S
evaluates server = evaluate_guard server.geth server.state_store server.gob

module _ {S : Type 0} (server : Server S) (laws : IsServer server) where
  -- On a server whose parts behave as documented: once an evaluation has been answered, another one
  -- for the same rule and nonce is refused, as a replay or because the policy has expired, after
  -- any sequence of actions, whatever the node, the decryptor and the other fields of the requests
  -- were.
  pub nonce_replay_refused :
      (calls calls' : Calls) (r r' : EvaluateGuardRequest) (at at' : ℕ) (bytes : Bytes)
      (e : Extension S) (between : List (Calls × Action))
      → (evaluates server calls r at e).0 ≡ ok bytes
      → r'.rule_id ≡ r.rule_id
      → r'.nonce ≡ r.nonce
      → let later = run server between (evaluates server calls r at e).1 in
        ((evaluates server calls' r' at' later).0 ≡ err policy_expired)
        ⊎ ((evaluates server calls' r' at' later).0 ≡ err nonce_replay)
  nonce_replay_refused calls calls' r r' at at' bytes e between answered rule nonce =
      let first = (evaluates server calls r at e).1 in
      let later = run server between first in
      let granted =
        evaluate_guard-Granted server.geth server.state_store laws.store_laws server.gob
          laws.gob_laws calls r at e bytes answered in
      let ev = granted.evaluated in
      let (w, there, evolved) =
        run-Keeps server laws between first r.rule_id ev.state granted.done.own in
      let noted = evaluate_state-notes calls granted.state r at ev granted.passed in
      let used = evolved.nonces r.nonce noted.0 in
      let stops = λ (x : Failure).
        evaluate_guard_refused server.geth server.state_store laws.store_laws server.gob
          laws.gob_laws calls' r' at' later w x (rw rule there) in
      elim (evaluate_state-used calls' w r' at' (rw nonce used)) [
        | inl late ↦ inl (stops policy_expired late)
        | inr replayed ↦ inr (stops nonce_replay replayed)
      ]

  -- the first answer's decision is still the second's
  pub decision_kept :
      (calls calls' : Calls) (r r' : EvaluateGuardRequest) (at at' : ℕ) (bytes bytes' : Bytes)
      (e : Extension S) (between : List (Calls × Action))
      → (first : Granted server.geth server.state_store laws.store_laws server.gob laws.gob_laws
          calls r at e bytes)
      → (second : Granted server.geth server.state_store laws.store_laws server.gob laws.gob_laws
          calls' r' at'
          (run server between (evaluates server calls r at e).1)
          bytes')
      → r'.rule_id ≡ r.rule_id
      → r'.event_hash ≡ r.event_hash
      → SameDecision first.evaluated.authorization second.evaluated.authorization
  decision_kept calls calls' r r' at at' bytes bytes' e between first second rule event =
      let ev = first.evaluated in
      let ev' = second.evaluated in
      let (w, there, evolved) =
        run-Keeps server laws between (evaluates server calls r at e).1 r.rule_id ev.state
          first.done.own in
      let same : second.state ≡ w = elim second.origin [
        | inl here ↦ ground (arith, there, rule)
        | inr (p, absent, _, _) ↦ absurd (ground (arith, there, rule))
      ] in
      let both =
        Evolves-trans ev.state w ev'.state evolved
          (rw⁻¹ same (evaluate_state-Evolves calls' second.state r' at' ev' second.passed)) in
      let noted = evaluate_state-notes calls first.state r at ev first.passed in
      let noted' = evaluate_state-notes calls' second.state r' at' ev' second.passed in
      let (b, found, kept) = both.decisions r.event_hash ev.authorization noted.1 in
      let last : b ≡ ev'.authorization = ground (arith, found, noted'.1, event) in rw⁻¹ last kept

  -- On a server whose parts behave as documented, of two evaluations in a row for the same rule and
  -- event that are both answered, the second one is strictly later than the expiry of the first one,
  -- the uint64 sum of its time and 600 seconds.
  pub answers_in_a_row-lt :
      (calls calls' : Calls) (r r' : EvaluateGuardRequest) (at at' : ℕ) (bytes bytes' : Bytes)
      (e : Extension S)
      → (evaluates server calls r at e).0 ≡ ok bytes
      → (evaluates server calls' r' at' (evaluates server calls r at e).1).0 ≡ ok bytes'
      → r'.rule_id ≡ r.rule_id
      → r'.event_hash ≡ r.event_hash
      → add64 at result_validity_seconds < at'
  answers_in_a_row-lt calls calls' r r' at at' bytes bytes' e answered answered' rule event =
      let e' = (evaluates server calls r at e).1 in
      let first =
        evaluate_guard-Granted server.geth server.state_store laws.store_laws server.gob
          laws.gob_laws calls r at e bytes answered in
      let second =
        evaluate_guard-Granted server.geth server.state_store laws.store_laws server.gob
          laws.gob_laws calls' r' at' e' bytes' answered' in
      let ev = first.evaluated in
      let same : second.state ≡ ev.state = elim second.origin [
        | inl here ↦ ground (arith, first.done.own, rule)
        | inr (p, absent, _, _) ↦ absurd (ground (arith, first.done.own, rule))
      ] in
      let noted = evaluate_state-notes calls first.state r at ev first.passed in
      let (s, value, _, _, authorized) =
        (evaluate_state_lem calls' second.state r' at' second.evaluated second.passed).2 in
      elim (authorize_cases r' at' value second.state
        (lookup r'.event_hash second.state.authorizations) second.evaluated authorized) [
          | inl (fresh, _) ↦ absurd (ground (arith, fresh, noted.1, same, event))
          | inr (x, present, _, later, _) ↦
              let own : x ≡ ev.authorization = ground (arith, present, noted.1, same, event) in
              ground (arith, own, later, noted.2)
        ]
