-- ===== src/Validate/Verify.antt =====
-- The command that runs the checks: packages/fcc-extension/tools/cmd/verify-deploy/main.go.
pub mod Steps
pub mod Ready
use averlock.Prelude.{
  ℕ, Bool, true, false, ◌||◌, not, Option, none, some, List, [], ◌∷◌, ◌++◌, Bytes, codes, bytes_eq,
  is_empty, ◌==◌, if◌then◌else◌,
}
use averlock.Text.{trim_space}
use averlock.Tools.Report.{Report, has_failures, fprint, contains}
use averlock.Tools.Report.Json.{fprint_json}
use averlock.Validate.{Address, AddressText, Site, Client, ExtensionManager, OwnerAllowlist}
use averlock.Validate.Deploy.{register_deploy_checks}
use averlock.Validate.Register.{Given, register_registration_checks}
use averlock.Validate.Services.{register_services_checks}
use averlock.Validate.Version.{register_tee_version_checks}
use averlock.Validate.Machine.{register_tee_machine_checks, register_test_checks}

-- what DefaultSupport gives, whose parts are not nil
pub record Support : Type 0 where
  pub chain_client : Client
  pub prv : Address
  pub tee_extension_registry : ExtensionManager
  pub tee_owner_allowlist : OwnerAllowlist
  pub flare_tee_manager : Address
  pub evm_type : Bytes

abbrev given_by : Support → Given
given_by s = record {
  client = some s.chain_client;
  key = some s.prv;
  registry = some s.tee_extension_registry;
  allowlist = some s.tee_owner_allowlist;
  evm_type = s.evm_type;
}

-- the map of one address
abbrev addresses : Support → List (Bytes × Address)
addresses s = (codes "FlareTeeManager", s.flare_tee_manager) ∷ []

-- the arguments of the command, but those that are only handed to DefaultSupport
pub record Flags : Type 0 where
  pub config_path : Bytes
  pub step : Bytes
  pub checks_filter : Bytes
  pub json_out : Bool

module _ (addr : AddressText) (site : Site) where
  unfoldable pub deploy_step : Bytes → Support → Report → Report
  deploy_step path s report =
      register_deploy_checks addr site (some s.chain_client) (some s.prv) (addresses s)
        (addresses s) path report

  unfoldable pub register_step : Bytes → Support → Report → Report
  register_step path s report = register_registration_checks addr site (given_by s) path report

  -- the steps that need no chain, in the order of `all`
  unfoldable pub chain_free : Bytes → Report → Report
  chain_free path report = register_test_checks site path (
      register_tee_machine_checks site path
        (register_tee_version_checks site path (register_services_checks site path report)))

  -- the inner switch
  unfoldable pub with_support : Bytes → Bytes → Support → Report
  unfolding deploy_step register_step chain_free
  with_support step path s =
      if bytes_eq step (codes "deploy")
      then deploy_step path s []
      else if bytes_eq step (codes "register")
      then register_step path s []
      else chain_free path (register_step path s (deploy_step path s []))

  supported : Bytes → Bytes → Option Support → Option Report
  unfolding with_support
  supported step path none = none
  supported step path (some s) = some (with_support step path s)

  -- the outer switch, without a report where the program exits with 1; the support is made only for
  -- the first three steps
  unfoldable pub collect : Flags → Option Support → Option Report
  unfolding supported
  collect flags support =
      let is = bytes_eq flags.step in
      if is (codes "deploy") || (is (codes "register") || is (codes "all"))
      then supported flags.step flags.config_path support
      else if is (codes "services")
      then some (register_services_checks site flags.config_path [])
      else if is (codes "tee-version")
      then some (register_tee_version_checks site flags.config_path [])
      else if is (codes "tee-machine")
      then some (register_tee_machine_checks site flags.config_path [])
      else if is (codes "test")
      then some (register_test_checks site flags.config_path [])
      else none

on_first : ℕ → List Bytes → List Bytes
on_first c [] = (c ∷ []) ∷ []
on_first c (part ∷ parts) = (c ∷ part) ∷ parts

-- `strings.Split(s, ",")`
unfoldable pub split_comma : Bytes → List Bytes
unfolding on_first
split_comma [] = [] ∷ []
split_comma (c ∷ s) = let more = split_comma s in if c == b',' then [] ∷ more else on_first c more

-- the keys of `allowed`
unfoldable pub allowed_ids : List Bytes → List Bytes
allowed_ids [] = []
allowed_ids (id ∷ ids) =
    let more = allowed_ids ids in let t = trim_space id in if is_empty t then more else t ∷ more

unfoldable pub keep_allowed : List Bytes → Report → Report
keep_allowed allowed [] = []
keep_allowed allowed (res ∷ report) =
    let more = keep_allowed allowed report in if contains res.id allowed then res ∷ more else more

-- `--checks`
unfoldable pub filter_checks : Bytes → Report → Report
unfolding allowed_ids split_comma
filter_checks checks report =
    if is_empty checks then report else keep_allowed (allowed_ids (split_comma checks)) report

-- what the program writes to its output, and its exit code
pub record Exit : Type 0 where
  pub output : Bytes
  pub code : ℕ

unfoldable pub finish : Bool → Report → Exit
finish json_out report = record {
  output = if json_out then fprint_json report else fprint report;
  code = if has_failures report then 1 else 0;
}

exit_with : Flags → Option Report → Exit
unfolding finish
exit_with flags none = record { output = []; code = 1 }
exit_with flags (some report) = finish flags.json_out (filter_checks flags.checks_filter report)

-- main; the messages for the standard error are left out
unfoldable pub verify_deploy : AddressText → Site → Flags → Option Support → Exit
unfolding exit_with
verify_deploy addr site flags support = exit_with flags (collect addr site flags support)
