-- ===== src/Validate/Verify/Ready.antt =====
-- When the command of packages/fcc-extension/tools/cmd/verify-deploy/main.go exits with 0.
use averlock.Prelude.{
  ◌≡◌, ◌↔◌, refl, sym, ap, ◌∙◌, true, false, if◌then◌else◌, some, List, [], ◌∷◌, ◌++◌, Bytes, codes,
  is_empty, arith,
}
use mathlib.Core.List.Perm
use averlock.Tools.Report.{Report, has_failures}
use averlock.Validate.{Address, AddressText, Site, address_regex, extension_id_regex}
use averlock.Validate.EnvFile.{parse_extension_env, check_extension_env_format-parse_extension_env}
use averlock.Validate.Deploy.{d7}
use averlock.Validate.Deploy.Verdict.{IsDeployed, IsFunded, register_deploy_checks_iff}
use averlock.Validate.Register.{registration_results, register_registration_checks, extension_id_of}
use averlock.Validate.Register.Verdict.{IsAnswered, IsRegistered, registration_results_iff}
use averlock.Validate.Verify.Steps.{extension_id_regex-nonempty, chain_free-pass, chain_free-keeps}
use averlock.Validate.Order.{add_all_lem, has_failures-append}
use averlock.Validate.Verify.{
  Support, Flags, deploy_step, register_step, chain_free, with_support, collect, filter_checks,
  finish, verify_deploy, given_by,
}

-- The deployment is there, and the chain and extension.env agree on it.
pub record IsReady (addr : AddressText) (site : Site) (path : Bytes) (s : Support) : Type 0 where
  pub deployed : IsDeployed s.chain_client (codes "FlareTeeManager", s.flare_tee_manager)
  pub funded : IsFunded addr s.chain_client s.prv
  pub chain_answers : IsAnswered s.chain_client.chain_id
  pub sender_well_formed : address_regex (parse_extension_env site path).instruction_sender ≡ true
  pub id_well_formed : extension_id_regex (parse_extension_env site path).extension_id ≡ true
  pub next_answered : IsAnswered s.tee_extension_registry.next_public_extension_id
  pub registered :
      IsRegistered addr s.tee_extension_registry s.tee_owner_allowlist s.evm_type s.prv
        (extension_id_of (parse_extension_env site path).extension_id)
        (parse_extension_env site path).instruction_sender

has_failures-nil : has_failures [] ≡ false
unfolding has_failures
has_failures-nil = refl

module _ (addr : AddressText) (site : Site) (s : Support) where
  -- The report of `all`.
  all_report : Bytes → Report
  all_report path =
      chain_free addr site path (register_step addr site path s (deploy_step addr site path s []))

  d7_iff :
      (path content : Bytes)
      → is_empty path ≡ false
      → site.open_file path ≡ some content
      → (has_failures (d7 site path) ≡ false) ↔ (
          (address_regex (parse_extension_env site path).instruction_sender ≡ true)
          × (extension_id_regex (parse_extension_env site path).extension_id ≡ true))
  unfolding d7
  d7_iff path content given opened =
      let both = check_extension_env_format-parse_extension_env site path content opened in
      (
        λ h. (ground (arith, given, both, h), ground (arith, given, both, h)),
        λ h. ground (arith, given, both, h),
      )

  all_report_iff :
      (path content : Bytes)
      → is_empty path ≡ false
      → site.open_file path ≡ some content
      → (has_failures (all_report path) ≡ false) ↔ IsReady addr site path s
  unfolding all_report deploy_step register_step register_registration_checks
  all_report_iff path content given opened =
      let e = parse_extension_env site path in
      let entry : List (Bytes × Address) = (codes "FlareTeeManager", s.flare_tee_manager) ∷ [] in
      let deployed =
        register_deploy_checks_iff addr site s.chain_client s.prv entry entry entry path []
          (Perm.refl entry) (Perm.refl entry) has_failures-nil in
      let before = deploy_step addr site path s [] in
      let results = registration_results addr site (given_by s) path in
      let split = has_failures-append before results in
      let same = add_all_lem results before in
      let env = d7_iff path content given opened in
      let register_iff =
        registration_results_iff addr s.chain_client s.tee_extension_registry s.tee_owner_allowlist
          s.prv s.evm_type site path given in
      (
        λ h.
            let kept = chain_free-keeps addr site path (register_step addr site path s before) h in
            let total : has_failures (before ++ results) ≡ false =
              sym (ap has_failures same) ∙ kept in
            let d = deployed.0 (ground (arith, split, total)) in
            let values = env.0 d.3 in
            let some_id = extension_id_regex-nonempty e.extension_id values.1 in
            let r = (register_iff (ground (arith, some_id))).0 (ground (arith, split, total)) in
            record {
              deployed = d.0.0;
              funded = d.1;
              chain_answers = d.2;
              sender_well_formed = values.0;
              id_well_formed = values.1;
              next_answered = r.1;
              registered = r.2;
            },
        λ r.
            let d = deployed.1 (
              (r.deployed, tt),
              r.funded,
              r.chain_answers,
              env.1 (r.sender_well_formed, r.id_well_formed),
            ) in
            let some_id = extension_id_regex-nonempty e.extension_id r.id_well_formed in
            let q =
              (register_iff (ground (arith, some_id))).1
                (r.id_well_formed, r.next_answered, r.registered) in
            let total : has_failures (before ++ results) ≡ false = ground (arith, split, d, q) in
            chain_free-pass site path given addr (register_step addr site path s before)
              r.sender_well_formed r.id_well_formed
            ∙ (ap has_failures same ∙ total),
      )

  verify_deploy_code :
      (flags : Flags)
      → flags.step ≡ codes "all"
      → flags.checks_filter ≡ []
      → (verify_deploy addr site flags (some s)).code
        ≡ (if has_failures (all_report flags.config_path) then 1 else 0)
  unfolding verify_deploy collect with_support finish filter_checks all_report
  verify_deploy_code flags all unfiltered = rw (all, unfiltered) refl

  -- With a path to an extension.env that opens, `verify-deploy` run for all the steps and without a
  -- filter exits with 0 exactly when the deployment is ready: FlareTeeManager's address is not zero
  -- and has code, the deployer's balance is at least MinDeployBalance, the chain answers with its id
  -- and its next extension id, both values of extension.env are well-formed, and the contracts have
  -- the instruction sender for that extension, allow the deployer as an owner and support the key
  -- type.
  pub verify_deploy_iff :
      (flags : Flags) (content : Bytes)
      → flags.step ≡ codes "all"
      → flags.checks_filter ≡ []
      → is_empty flags.config_path ≡ false
      → site.open_file flags.config_path ≡ some content
      → ((verify_deploy addr site flags (some s)).code ≡ 0) ↔ IsReady addr site flags.config_path s
  verify_deploy_iff flags content all unfiltered given opened =
      let ready = all_report_iff flags.config_path content given opened in
      let code : (verify_deploy addr site flags (some s)).code
          ≡ (if has_failures (all_report flags.config_path) then 1 else 0) =
        verify_deploy_code flags all unfiltered in
      (
        λ h. ready.0 (ground (arith, code, h)),
        λ r. let passes = ready.1 r in ground (arith, code, passes),
      )
