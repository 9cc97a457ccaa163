-- ===== src/Tools/Governance.antt =====
-- The signers of a TEE's governance: packages/fcc-extension/tools/pkg/fccutils/governance.go and
-- tools/cmd/set-governance/main.go.
use averlock.Prelude.{
  ℕ, ◌≡◌, Bool, true, false, ◌||◌, not, Option, none, some, List, length, ltb, ◌==◌, if◌then◌else◌,
  arith, Result, ok, err, Option-cases, inl, inr,
}
use averlock.Ethereum.{Hash}

pub data GovernanceError : Type 0 where
  no_signers : GovernanceError
  invalid_threshold : GovernanceError
  hash_failed : GovernanceError
  no_transactor : GovernanceError
  transaction_failed : GovernanceError
  receipt_failed : GovernanceError

-- what go-ethereum and the chain answer: the governance hash of the node's library, the latest hash
-- on chain, the transaction and its receipt
pub record Registry (V : Type 0) : Type 0 where
  pub transactor : Bool
  pub governance_hash : List Hash → ℕ → Option Hash
  pub latest_hash : V → Option Hash
  pub set_new : List Hash → ℕ → V → Bool × V
  pub check_tx : V → Bool

module _ {V : Type 0} (c : Registry V) where
  -- the transaction and its receipt
  send_governance : List Hash → ℕ → V → Result GovernanceError (Unit {0}) × V
  send_governance signers threshold v =
      if not c.transactor
      then (err no_transactor, v)
      else (let (sent, v') = c.set_new signers threshold v in
          if not sent
          then (err transaction_failed, v')
          else if c.check_tx v'
          then (ok tt, v')
          else (err receipt_failed, v'))

  -- `err == nil && common.Hash(current) == desiredHash`
  is_current : Hash → Option Hash → Bool
  is_current desired none = false
  is_current desired (some current) = current == desired

  -- SetTeeGovernance
  unfoldable pub set_tee_governance : List Hash → ℕ → V → Result GovernanceError (Unit {0}) × V
  unfolding send_governance is_current
  set_tee_governance signers threshold v =
      if length signers == 0
      then (err no_signers, v)
      else if threshold == 0 || ltb (length signers) threshold
      then (err invalid_threshold, v)
      else elim (c.governance_hash signers threshold) [
        | none ↦ (err hash_failed, v)
        | some desired ↦
            if is_current desired (c.latest_hash v)
            then (ok tt, v)
            else send_governance signers threshold v
      ]

  -- Where a confirmed transaction makes its hash the latest one on chain: after a call that
  -- succeeds, a second one with the same signers and threshold succeeds and changes nothing.
  pub set_tee_governance_idempotent :
      ((signers : List Hash) (threshold : ℕ) (v : V)
        → c.check_tx (c.set_new signers threshold v).1 ≡ true
        → c.latest_hash (c.set_new signers threshold v).1 ≡ c.governance_hash signers threshold)
      → (signers : List Hash) (threshold : ℕ) (v : V)
      → (set_tee_governance signers threshold v).0 ≡ ok tt
      → let v' = (set_tee_governance signers threshold v).1 in
        set_tee_governance signers threshold v' ≡ (ok tt, v')
  unfolding set_tee_governance
  set_tee_governance_idempotent latest signers threshold v done =
      elim (Option-cases (c.governance_hash signers threshold)) [
        | inl none_there ↦ absurd (ground (arith, done))
        | inr (desired, hashed) ↦ ground (arith, done, latest signers threshold v)
      ]
