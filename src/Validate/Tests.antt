-- ===== src/Validate/Tests.antt =====
-- The checks of a concrete deployment.
use averlock.Prelude.{
  ℕ, zero, suc, ◌≡◌, ◌↔◌, refl, true, false, ◌||◌, not, none, some, List, [], ◌∷◌, ◌++◌, Bytes,
  codes, ok,
}
use mathlib.Core.List.{Perm}
use mathlib.Core.List.Perm
use averlock.Tools.Report.{has_failures}
use averlock.Validate.{Address, AddressText, Site, address_regex, extension_id_regex}
use averlock.Validate.EnvFile.{
  check_extension_env_format, parse_extension_env, check_extension_env_format-parse_extension_env,
}
use averlock.Validate.Deploy.{register_deploy_checks, d7}
use averlock.Validate.OnePass.{summaries, one_pass, register_deploy_checks-one_pass}
use averlock.Text.{trim_space}
use averlock.Validate.{has_prefix, equal_fold, reachable, hex_regex, for_each, add_all}
use averlock.Validate.EnvFile.{get, vars_of, read_vars}
use averlock.Validate.Addresses.{
  d3, d1, has_label, zero_addrs, round_d1, each_d3, each_d1, address_not_zero,
}
use averlock.Validate.Deploy.{
  d5_funds, d6, after_loops, deploy_results, check_chain_id, check_deployer_key_source,
}
use averlock.Validate.Register.{
  matching_ids, rounds, connected, r1, r2, r3, r4, r7, results_r1, results_r2, results_r3,
  results_r4, results_r7, on_chain_results, entry_results, registration_results,
  register_registration_checks,
}
use averlock.Validate.Services.{s2, s5, s7, s9, s10, services_results, register_services_checks}
use averlock.Validate.Version.{v2, v4, v6, tee_version_results, register_tee_version_checks}
use averlock.Validate.Machine.{
  t1, t5, t10, tee_machine_results, register_tee_machine_checks, e1, e3, e6, test_results,
  register_test_checks,
}
use averlock.Validate.Verify.{Support, Flags, verify_deploy, collect, filter_checks, finish}
use averlock.Validate.Verify.Ready.{IsReady, verify_deploy_iff}

abbrev digits : ℕ → Bytes
digits zero = []
digits (suc n) = b'0' ∷ digits n

abbrev content : Bytes
content =
    codes " EXTENSION_ID = 0x"
    ++ (digits 63
        ++ (codes "5\r"
            ++ 10 ∷ codes "# a comment"
            ++ 10 ∷ codes "INSTRUCTION_SENDER=0x"
            ++ (digits 39 ++ codes "7")))

abbrev addr : AddressText
addr = record { hex_to_address = λ s. 7; hex = λ a. codes "0x" }

abbrev site : Site
site = record {
  getenv = λ key. [];
  open_file = λ path. some content;
  not_exist = λ path. false;
  http_get = λ url. none;
  dial = λ target. false;
}

abbrev support : Support
support = record {
  chain_client = record {
    chain_id = ok 114;
    code_at = λ a. ok (96 ∷ 128 ∷ []);
    balance_at = λ a. ok 20000000000000000;
  };
  prv = 9;
  tee_extension_registry = record {
    next_public_extension_id = ok 6;
    get_tee_extension_instructions_sender = λ id. ok 7;
    is_key_type_supported = λ id type. ok true;
  };
  tee_owner_allowlist = record { is_allowed_tee_machine_owner = λ id deployer. ok true };
  flare_tee_manager = 3;
  evm_type = codes "EVM";
}

abbrev flags : Flags
flags = record {
  config_path = codes "extension.env";
  step = codes "all";
  checks_filter = [];
  json_out = false;
}

-- the run exits with 0
run : (verify_deploy addr site flags (some support)).code ≡ 0
unfolding verify_deploy collect has_failures filter_checks add_all register_test_checks test_results
    e1 e3 e6 register_tee_machine_checks tee_machine_results t1 t5 t10 register_tee_version_checks
    tee_version_results v2 v4 v6 register_services_checks services_results s2 s5 s7 s9 s10
    register_registration_checks registration_results entry_results parse_extension_env
    extension_id_regex address_regex on_chain_results connected results_r1 r1 results_r2 r2
    results_r3 r3 results_r4 r4 results_r7 r7 register_deploy_checks deploy_results each_d3 d3
    each_d1 round_d1 has_label zero_addrs address_not_zero d1 for_each after_loops
    check_deployer_key_source d5_funds d6 d7 check_extension_env_format check_chain_id hex_regex
    finish equal_fold reachable trim_space has_prefix get vars_of read_vars matching_ids rounds
run = refl

check_extension_env_format-parse_extension_env_example :
    has_failures (check_extension_env_format site (codes "extension.env")) ≡ (
      not (address_regex (parse_extension_env site (codes "extension.env")).instruction_sender)
      || not (extension_id_regex (parse_extension_env site (codes "extension.env")).extension_id))
check_extension_env_format-parse_extension_env_example =
    check_extension_env_format-parse_extension_env site (codes "extension.env") content refl

verify_deploy_iff_example :
    ((verify_deploy addr site flags (some support)).code ≡ 0)
    ↔ IsReady addr site (codes "extension.env") support
verify_deploy_iff_example = verify_deploy_iff addr site support flags content refl refl refl refl

-- the second address is zero
abbrev two : List (Bytes × Address)
two = (codes "A", 3) ∷ (codes "B", 0) ∷ []

abbrev turned : List (Bytes × Address)
turned = (codes "B", 0) ∷ (codes "A", 3) ∷ []

two-Perm : Perm turned two
two-Perm = Perm.swap (codes "A", 3) (codes "B", 0) []

register_deploy_checks-one_pass_example :
    Perm
      (summaries (register_deploy_checks addr site none none turned two [] []))
      (one_pass none two ++ summaries (after_loops addr site none none []))
register_deploy_checks-one_pass_example =
    register_deploy_checks-one_pass addr site none none two turned two [] [] (refl, (refl, tt))
      two-Perm (Perm.refl two)
