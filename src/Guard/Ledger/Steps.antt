-- ===== src/Guard/Ledger/Steps.antt =====
-- The server with the memory store through one evaluation or creation, beside the ledger.
use averlock.Prelude.{
  ℕ, ◌≡◌, ◌≢◌, refl, none, some, [], ◌∷◌, ◌++◌, arith, ok, err, length, lookup, insert,
  lookup-insert, get_elem?-append_last, inl, inr, Option-cases, Bool-cases, ◌==◌, Map, ◌∙◌, ap,
}
use averlock.Ethereum.{Hash, Geth}
use averlock.Policy.{PolicyState}
use averlock.Store.{state_missing, Ptr, Heap, deref, Grows}
use averlock.Store.Memory.{MemoryStore, memory_store, AllKept, load, save}
use averlock.Guard.State.{EvaluateGuardRequest, Gob, IsGob, Failure, Calls, Extension, unknown_rule}
use averlock.Guard.Evaluate.{
  Evaluated, encode_response, evaluate_guard, evaluate_at, evaluate_state, load_failure,
  record_evaluation,
}
use averlock.Guard.Evaluate.Cases.{
  find_state_cases, evaluate_at_cases, evaluate_guard_found, evaluate_guard_missing,
}
use averlock.Guard.History.Evolves.{evaluate_state-Evolves}
use averlock.Guard.History.Memory.{view, state_at, Grows-append}
use averlock.Guard.Sound.Invariant.{AllKept-Grows, AllKept-insert}
use averlock.Guard.Ledger.{Ledger, update, settle, decide}

abbrev Any : PolicyState → Type 0
Any v = Unit

-- The server's memory shows the ledger, each policy under its own rule, and the store holds the same
-- pointers.
pub record Shows (ledger : Ledger) (e : Extension MemoryStore) : Type 0 where
  pub entries : (rule : Hash) → state_at rule e ≡ ledger rule
  pub kept : AllKept (λ v. Unit {0}) e.heap e.policies
  pub stored : (rule : Hash) → lookup rule e.store ≡ lookup rule e.policies

-- New objects change no view.
view-Grows :
    (ps : Map Ptr) (h h' : Heap) (rule : Hash)
    → AllKept (λ v. Unit {0}) h ps
    → Grows h h'
    → view rule ps h' ≡ view rule ps h
view-Grows ps h h' rule kept grows = elim (Option-cases (lookup rule ps)) [
  | inl absent ↦ ground (arith, absent)
  | inr (p, there) ↦
      let (v, at, own, _) = kept rule p there in ground (arith, there, at, grows p v at)
]

Shows-Grows :
    (ledger : Ledger) (e : Extension MemoryStore) (w : PolicyState)
    → Shows ledger e
    → Shows ledger (record e { heap = e.heap ++ w ∷ [] })
Shows-Grows ledger e w shows = record {
  entries = λ rule.
      view-Grows e.policies e.heap (e.heap ++ w ∷ []) rule shows.kept (Grows-append e.heap w)
      ∙ shows.entries rule;
  kept =
      AllKept-Grows (λ v. Unit {0}) e.heap (e.heap ++ w ∷ []) e.policies (Grows-append e.heap w)
        shows.kept;
  stored = shows.stored;
}

-- A new object is bound to its rule, in memory and in the store.
pub Shows-insert :
    (ledger : Ledger) (e : Extension MemoryStore) (rule : Hash) (w : PolicyState) (n m : ℕ)
    → w.policy.rule_id ≡ rule
    → Shows ledger e
    → Shows (update rule w ledger) (record {
      policies = insert rule (length e.heap) e.policies;
      heap = e.heap ++ w ∷ [];
      store = insert rule (length e.heap) e.store;
      evaluation_count = n;
      successful_triggers = m;
    })
Shows-insert ledger e rule w n m own shows =
    let last = get_elem?-append_last e.heap w in
    let grown = Shows-Grows ledger e w shows in
    record {
      entries = λ k.
          let put = lookup-insert rule k (length e.heap) e.policies in
          elim (Bool-cases (k == rule)) [
            | inl this ↦ ground (arith, put, this, last)
            | inr other ↦ ground (arith, put, other, grown.entries k)
          ];
      kept =
          AllKept-insert (λ v. Unit {0}) (e.heap ++ w ∷ []) e.policies rule (length e.heap) w
            grown.kept last own tt;
      stored = λ k. ground (
        arith,
        lookup-insert rule k (length e.heap) e.policies,
        lookup-insert rule k (length e.heap) e.store,
        shows.stored k,
      );
    }

-- Save of a new object under its own rule.
pub save_new :
    (rule : Hash) (h : Heap) (w : PolicyState) (s : MemoryStore)
    → rule ≢ 0
    → w.policy.rule_id ≡ rule
    → save rule (length h) (h ++ w ∷ []) s ≡ (ok tt, insert rule (length h) s)
unfolding save
save_new rule h w s nonzero own = ground (arith, get_elem?-append_last h w, own)

-- The same answer, and what the server holds then shows the new ledger.
abbrev pub Agrees : {A : Type 0} → A × Ledger → A × Extension MemoryStore → Type 0
Agrees (answer, ledger) (answer', e) = (answer' ≡ answer) × Shows ledger e

module _ (g : Geth) (gob : Gob) (laws : IsGob gob) (calls : Calls) (r : EvaluateGuardRequest)
    (timestamp : ℕ) (nonzero : r.rule_id ≢ 0) where
  decide_refused :
      (ledger : Ledger) (v : PolicyState) (x : Failure)
      → ledger r.rule_id ≡ some v
      → evaluate_state calls v r timestamp ≡ err x
      → decide g calls r timestamp ledger ≡ (err x, ledger)
  unfolding decide settle
  decide_refused ledger v x known refused = ground (arith, known, refused)

  decide_settled :
      (ledger : Ledger) (v : PolicyState) (ev : Evaluated)
      → ledger r.rule_id ≡ some v
      → evaluate_state calls v r timestamp ≡ ok ev
      → decide g calls r timestamp ledger
        ≡ (encode_response g r timestamp ev, update r.rule_id ev.state ledger)
  unfolding decide settle
  decide_settled ledger v ev known passed = ground (arith, known, passed)

  decide_unknown :
      (ledger : Ledger)
      → ledger r.rule_id ≡ none
      → decide g calls r timestamp ledger ≡ (err unknown_rule, ledger)
  unfolding decide
  decide_unknown ledger unknown = ground (arith, unknown)

  -- from the object of the rule
  evaluate_at-decide :
      (ledger : Ledger) (e : Extension MemoryStore) (p : Ptr) (v : PolicyState)
      → Shows ledger e
      → ledger r.rule_id ≡ some v
      → deref e.heap p ≡ some v
      → v.policy.rule_id ≡ r.rule_id
      → Agrees
          (decide g calls r timestamp ledger)
          (evaluate_at g memory_store gob calls r timestamp p e)
  unfolding record_evaluation
  evaluate_at-decide ledger e p v shows known at own =
      elim (evaluate_at_cases g memory_store gob laws calls r timestamp p e v at) [
        | inl (x, refused, is) ↦
            rw (is, decide_refused ledger v x known refused) (refl, Shows-Grows ledger e v shows)
        | inr (ev, passed, outcome) ↦
            let same =
              ap (λ q. q.rule_id) (evaluate_state-Evolves calls v r timestamp ev passed).policy
              ∙ own in
            let kept = save_new r.rule_id e.heap ev.state e.store nonzero same in
            elim outcome [
              | inl (x, failed, is) ↦ absurd (ground (arith, kept, failed))
              | inr (_, is) ↦
                  rw (is, decide_settled ledger v ev known passed, kept)
                    (refl, Shows-insert ledger e r.rule_id ev.state _ _ same shows)
            ]
      ]

  -- An evaluation of the server is the ledger's.
  pub evaluate_guard-decide :
      (ledger : Ledger) (e : Extension MemoryStore)
      → Shows ledger e
      → Agrees
          (decide g calls r timestamp ledger)
          (evaluate_guard g memory_store gob calls r timestamp e)
  evaluate_guard-decide ledger e shows = elim (find_state_cases memory_store r.rule_id e) [
    | inl (p, there, is) ↦
        let (v, at, own, _) = shows.kept r.rule_id p there in
        let known : ledger r.rule_id ≡ some v =
          ground (arith, shows.entries r.rule_id, there, at) in
        rw (evaluate_guard_found g memory_store gob laws calls r timestamp e is)
          (evaluate_at-decide ledger e p v shows known at own)
    | inr (absent, inl (p, got, is)) ↦
        absurd (unfold load in ground (arith, got, absent, shows.stored r.rule_id))
    | inr (absent, inr (x, failed, is)) ↦
        let unknown : ledger r.rule_id ≡ none = ground (arith, shows.entries r.rule_id, absent) in
        let missing : x ≡ state_missing =
          unfold load in ground (arith, failed, absent, shows.stored r.rule_id, nonzero) in
        rw
          (
            evaluate_guard_missing g memory_store gob laws calls r timestamp e is,
            decide_unknown ledger unknown,
            missing,
          )
          (unfold load_failure load in (refl, shows))
  ]
