-- ===== src/Live/Main.antt =====
-- The modes of the live test: main of packages/fcc-extension/tools/cmd/run-test/main.go.
use averlock.Prelude.{
  ℕ, Bool, not, Option, Bytes, is_empty, if◌then◌else◌, Result, ok, err, fail_if, and_then, ◌>>◌,
  ◌>>=◌,
}
use averlock.Ethereum.{Geth}
use averlock.Validate.{Address}
use averlock.Live.{HexText, LiveError, not_ready}
use averlock.Live.Answers.{Signing, Manager}
use averlock.Live.Evaluation.{Instructions, Clock, Arguments, evaluate_existing_snapshot}
use averlock.Live.Machines.{Chain, Target, TeeInfo, retire_stale_machines, validate_live_tee}
use averlock.Live.Restore.{Formats, Surroundings, Restored, restore_existing_policy}
use averlock.Live.Scenario.{World, Fresh, run_scenario}

-- the flags that are not paths of the setup; -restoreActionId is in `restored`
pub record Flags : Type 0 where
  pub target : Target
  pub create_policy_only : Bool
  pub evaluate_guard_snapshot : Bool
  pub snapshot : Arguments
  pub restore_policy_artifact : Bytes
  pub retire_stale_tees : Bool
  pub restored : Restored

-- what a run meets: the proxy's /info, the chain of DefaultSupport with its account, whether the readiness
-- script succeeds, and what each mode meets
pub record Site (V : Type 0) : Type 0 where
  pub geth : Geth
  pub hex : HexText
  pub signing : Signing
  pub formats : Formats
  pub chain : Chain V
  pub info : Option TeeInfo
  pub tx_chain : Option ℕ
  pub owner : Address
  pub ready : Address → ℕ → Bool
  pub manager : Manager
  pub instructions : Instructions
  pub clock : Clock
  pub writes : Bool
  pub surroundings : Surroundings
  pub world : World
  pub fresh : Fresh
  pub base_timestamp : ℕ

-- a result of which only the error counts
done : {A : Type 0} → Result LiveError A → Result LiveError (Unit {0})
done r = r >>= (λ _. ok tt)

module _ {V : Type 0} (site : Site V) (flags : Flags) where
  -- `-retireStaleTees`
  retire_if_asked : Address → ℕ → V → Result LiveError (Unit {0}) × V
  retire_if_asked tee extension_id v =
      if flags.retire_stale_tees
      then retire_stale_machines site.chain site.owner tee extension_id v
      else (ok tt, v)

  unfoldable pub restores : Address → Result LiveError (Unit {0})
  unfolding done
  restores tee = done (
      restore_existing_policy site.geth site.hex site.signing site.formats site.surroundings tee
        flags.restored)

  -- the restoring, whose gate is passed only for a new instruction
  unfoldable pub restore_mode : Address → ℕ → V → Result LiveError (Unit {0}) × V
  unfolding retire_if_asked restores
  restore_mode tee extension_id v =
      if is_empty flags.restored.existing_action_text
      then and_then (retire_if_asked tee extension_id v)
          (λ _ w. (fail_if (not (site.ready tee extension_id)) not_ready >> restores tee, w))
      else (restores tee, v)

  snapshot_mode : Address → Result LiveError (Unit {0})
  unfolding done
  snapshot_mode tee = done (
      evaluate_existing_snapshot site.geth site.hex site.signing site.instructions site.clock tee
        site.manager site.writes flags.snapshot)

  scenario_mode : Address → Result LiveError (Unit {0})
  scenario_mode tee =
      run_scenario site.geth site.signing site.formats tee site.world site.fresh site.base_timestamp
        flags.create_policy_only

  -- the choice of a mode
  unfoldable pub run_mode : Address × ℕ × Address → V → Result LiveError (Unit {0}) × V
  unfolding snapshot_mode scenario_mode
  run_mode (tee, extension_id, sender) v =
      if flags.evaluate_guard_snapshot
      then (snapshot_mode tee, v)
      else if not (is_empty flags.restore_policy_artifact)
      then restore_mode tee extension_id v
      else (scenario_mode tee, v)

  -- main
  unfoldable pub run_test : V → Result LiveError (Unit {0}) × V
  run_test v = elim (validate_live_tee site.hex site.chain v flags.target site.info site.tx_chain) [
    | err e ↦ (err e, v)
    | ok live ↦ run_mode live v
  ]
