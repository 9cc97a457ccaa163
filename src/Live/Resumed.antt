-- ===== src/Live/Resumed.antt =====
-- A run of packages/fcc-extension/tools/cmd/run-test/main.go that resumes the restoring of a policy.
use averlock.Validate.{Address}
use averlock.Prelude.{
  ℕ, ◌>>=◌, sym, ◌∙◌, ◌≡◌, ap, false, Option, Bytes, is_empty, arith, ok, err, Result-cases, inl,
  inr,
}
use averlock.Ethereum.{Hash}
use averlock.Live.{LiveError}
use averlock.Live.Machines.{validate_live_tee}
use averlock.Live.Restored.{resumed_sends_nothing}
use averlock.Live.Scenario.{World}
use averlock.Live.Evaluation.{Instructions}
use averlock.Live.Main.{Flags, Site, restores, restore_mode, run_mode, run_test}

module _ {V : Type 0} (site : Site V) (flags : Flags) where
  resumed_mode :
      (live : Address × ℕ × Address) (v : V)
      → flags.evaluate_guard_snapshot ≡ false
      → is_empty flags.restore_policy_artifact ≡ false
      → is_empty flags.restored.existing_action_text ≡ false
      → run_mode site flags live v ≡ (restores site flags live.0, v)
  unfolding run_mode restore_mode
  resumed_mode (tee, extension_id, sender) v other restoring resumed =
      ground (arith, other, restoring, resumed)

  run_refused :
      (e : LiveError) (v : V)
      → validate_live_tee site.hex site.chain v flags.target site.info site.tx_chain ≡ err e
      → run_test site flags v ≡ (err e, v)
  unfolding run_test
  run_refused e v refused = ground (arith, refused)

  run_validated :
      (live : Address × ℕ × Address) (v : V)
      → validate_live_tee site.hex site.chain v flags.target site.info site.tx_chain ≡ ok live
      → run_test site flags v ≡ run_mode site flags live v
  unfolding run_test
  run_validated live v passed = ground (arith, passed)

module _ {V : Type 0} (site : Site V) (flags : Flags) (world : World) (instructions : Instructions)
    (encrypt : Bytes → Option Bytes) (send : Bytes → Option (Hash × Hash)) where
  -- The site with other answers to what is encrypted and sent.
  abbrev pub sends_otherwise : Site V
  sends_otherwise = record site {
    surroundings = record (site.surroundings) { encrypt = encrypt; send_create_policy = send };
    world = world;
    instructions = instructions;
  }

  restores-sends_otherwise :
      (tee : Address)
      → is_empty flags.restored.existing_action_text ≡ false
      → restores site flags tee ≡ restores sends_otherwise flags tee
  unfolding restores
  restores-sends_otherwise tee resumed =
      ap (λ r. r >>= (λ _. ok tt))
        (resumed_sends_nothing site.geth site.hex site.signing site.formats site.surroundings tee
          flags.restored encrypt send resumed)

  -- A run that resumes the restoring of a policy by its action is read-only: the machines are as before,
  -- and the outcome does not depend on what encrypting a policy, or sending an instruction of any kind,
  -- would answer.
  pub run_test-resumed :
      (v : V)
      → flags.evaluate_guard_snapshot ≡ false
      → is_empty flags.restore_policy_artifact ≡ false
      → is_empty flags.restored.existing_action_text ≡ false
      → ((run_test site flags v).1 ≡ v) × (run_test site flags v ≡ run_test sends_otherwise flags v)
  run_test-resumed v other restoring resumed =
      elim (Result-cases
        (validate_live_tee site.hex site.chain v flags.target site.info site.tx_chain)) [
          | inr (e, refused) ↦ (
            ap (λ out. out.1) (run_refused site flags e v refused),
            run_refused site flags e v refused
                ∙ sym (run_refused sends_otherwise flags e v refused),
          )
          | inl (live, passed) ↦
              let here =
                run_validated site flags live v passed
                ∙ resumed_mode site flags live v other restoring resumed in
              let there =
                run_validated sends_otherwise flags live v passed
                ∙ resumed_mode sends_otherwise flags live v other restoring resumed in
              (
                ap (λ out. out.1) here,
                here ∙ ap (λ r. (r, v)) (restores-sends_otherwise live.0 resumed) ∙ sym there,
              )
        ]
