-- ===== src/Validate/Verify/Steps.antt =====
-- The steps that need no chain, as packages/fcc-extension/tools/cmd/verify-deploy/main.go adds them.
use averlock.Prelude.{◌≡◌, refl, ap, true, false, List, [], ◌∷◌, ◌++◌, Bytes, is_empty, arith}
use averlock.Tools.Report.{CheckResult, Report, has_failures}
use averlock.Validate.{AddressText, Site, address_regex, extension_id_regex, hex_regex, add_all}
use averlock.Validate.EnvFile.{parse_extension_env}
use averlock.Validate.Services.{s2, s5, s7, s9, s10, services_results, register_services_checks}
use averlock.Validate.Version.{v2, v4, v6, tee_version_results, register_tee_version_checks}
use averlock.Validate.Machine.{
  t1, t5, t10, tee_machine_results, register_tee_machine_checks, e1, e3, e6, test_results,
  register_test_checks,
}
use averlock.Validate.Order.{add_all_lem, has_failures-append}
use averlock.Validate.Verify.{chain_free}

pub extension_id_regex-nonempty : (s : Bytes) → extension_id_regex s ≡ true → is_empty s ≡ false
unfolding extension_id_regex hex_regex
extension_id_regex-nonempty [] h = absurd (cc h)
extension_id_regex-nonempty (c ∷ s) h = refl

address_regex-nonempty : (s : Bytes) → address_regex s ≡ true → is_empty s ≡ false
unfolding address_regex hex_regex
address_regex-nonempty [] h = absurd (cc h)
address_regex-nonempty (c ∷ s) h = refl

module _ (site : Site) (path : Bytes) (given : is_empty path ≡ false) where
  services-pass :
      extension_id_regex (parse_extension_env site path).extension_id ≡ true
      → has_failures (services_results site path) ≡ false
  unfolding services_results s2 s5 s7 s9 s10 has_failures
  services-pass good =
      let some_id = extension_id_regex-nonempty (parse_extension_env site path).extension_id good in
      ground (arith, given, good, some_id)

  tee_version-pass :
      extension_id_regex (parse_extension_env site path).extension_id ≡ true
      → has_failures (tee_version_results site path) ≡ false
  unfolding tee_version_results v2 v4 v6 has_failures
  tee_version-pass good =
      let some_id = extension_id_regex-nonempty (parse_extension_env site path).extension_id good in
      ground (arith, given, good, some_id)

  tee_machine-pass : has_failures (tee_machine_results site) ≡ false
  unfolding tee_machine_results t1 t5 t10 has_failures
  tee_machine-pass = ground arith

  test-pass :
      address_regex (parse_extension_env site path).instruction_sender ≡ true
      → has_failures (test_results site path) ≡ false
  unfolding test_results e1 e3 e6 has_failures
  test-pass good =
      let some_sender =
        address_regex-nonempty (parse_extension_env site path).instruction_sender good in
      ground (arith, given, good, some_sender)

  -- The steps without the chain add no failure to a report, if both values are well-formed.
  pub chain_free-pass :
      (addr : AddressText) (report : Report)
      → address_regex (parse_extension_env site path).instruction_sender ≡ true
      → extension_id_regex (parse_extension_env site path).extension_id ≡ true
      → has_failures (chain_free addr site path report) ≡ has_failures report
  unfolding chain_free register_services_checks register_tee_version_checks
      register_tee_machine_checks register_test_checks
  chain_free-pass addr report sender id =
      let a = services_results site path in
      let b = tee_version_results site path in
      let c = tee_machine_results site in
      let d = test_results site path in
      let ra = report ++ a in
      let rb = ra ++ b in
      let rc = rb ++ c in
      rw (add_all_lem a report, add_all_lem b ra, add_all_lem c rb, add_all_lem d rc)
        (let pa = services-pass id in
          let pb = tee_version-pass id in
          let pc = tee_machine-pass in
          let pd = test-pass sender in
          let sa = has_failures-append report a in
          let sb = has_failures-append ra b in
          let sc = has_failures-append rb c in
          let sd = has_failures-append rc d in ground (arith, pa, pb, pc, pd, sa, sb, sc, sd))

-- Adding results keeps the failures.
add_all-keeps :
    (results : List CheckResult) (report : Report)
    → has_failures (add_all results report) ≡ false
    → has_failures report ≡ false
add_all-keeps results report h =
    let same = add_all_lem results report in
    let split = has_failures-append report results in ground (arith, ap has_failures same, split, h)

pub chain_free-keeps :
    (addr : AddressText) (site : Site) (path : Bytes) (report : Report)
    → has_failures (chain_free addr site path report) ≡ false
    → has_failures report ≡ false
unfolding chain_free register_services_checks register_tee_version_checks
    register_tee_machine_checks register_test_checks
chain_free-keeps addr site path report h = add_all-keeps (services_results site path) report (
    add_all-keeps (tee_version_results site path) _
      (add_all-keeps (tee_machine_results site) _ (add_all-keeps (test_results site path) _ h)))
