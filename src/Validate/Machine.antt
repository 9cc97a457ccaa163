-- ===== src/Validate/Machine.antt =====
-- RegisterTeeMachineChecks, RegisterTestChecks and RegisterStubChecks in
-- packages/fcc-extension/tools/pkg/validate/checks.go.
use averlock.Prelude.{
  Bool, ◌&&◌, not, List, [], ◌∷◌, Bytes, codes, bytes_eq, is_empty, if◌then◌else◌,
}
use averlock.Tools.Report.{Status, CheckResult, Report, add, pass, warn, fail, skip}
use averlock.Validate.{Site, text, dash, address_regex, reachable, check_result, add_all}
use averlock.Validate.EnvFile.{parse_extension_env}

-- a result of the step
abbrev tee_machine : Bytes → Bytes → Status → Bytes → Bytes → CheckResult
tee_machine = check_result (codes "tee-machine")

t1_result : Status → Bytes → Bytes → CheckResult
t1_result = tee_machine (codes "T1") (codes "SIMULATED_TEE mode")

-- T1
unfoldable pub t1 : Site → CheckResult
unfolding t1_result
t1 site =
    let simulated_tee = site.getenv (codes "SIMULATED_TEE") in
    if bytes_eq simulated_tee (codes "true")
      && bytes_eq (site.getenv (codes "LOCAL_MODE")) (codes "false")
    then t1_result warn
        (text (
          codes "SIMULATED_TEE=true on non-local deployment "
          ∷ dash
          ∷ codes
              " machine will be registered with test attestation values. Set SIMULATED_TEE=false for real TEE hardware"
          ∷ []))
        (codes "Set SIMULATED_TEE=false in .env when deploying to a real GCP TEE")
    else if bytes_eq simulated_tee (codes "true")
    then t1_result pass (codes "simulated TEE mode (local)") []
    else t1_result pass (codes "real attestation mode") []

t5_result : Status → Bytes → Bytes → CheckResult
t5_result = tee_machine (codes "T5") (codes "NORMAL_PROXY_URL reachable")

-- T5
unfoldable pub t5 : Site → CheckResult
unfolding t5_result
t5 site =
    let url = site.getenv (codes "NORMAL_PROXY_URL") in
    if is_empty url
    then t5_result skip (codes "NORMAL_PROXY_URL not set") []
    else if reachable site url
    then t5_result pass (text (codes "normal proxy reachable at " ∷ url ∷ [])) []
    else t5_result warn
        (text (
          codes "normal proxy not reachable at "
          ∷ url
          ∷ codes " "
          ∷ dash
          ∷ codes " required for FTDC availability check"
          ∷ []))
        (codes "Ensure the normal/FTDC proxy is running and NORMAL_PROXY_URL is correct in .env")

t10_result : Status → Bytes → Bytes → CheckResult
t10_result = tee_machine (codes "T10") (codes "host URL reachable")

-- T10
unfoldable pub t10 : Site → CheckResult
unfolding t10_result
t10 site =
    let url = site.getenv (codes "EXT_PROXY_URL") in
    if is_empty url
    then t10_result skip (codes "EXT_PROXY_URL not set") []
    else if reachable site url
    then t10_result pass (text (codes "host URL reachable at " ∷ url ∷ [])) []
    else t10_result warn
        (text (
          codes "host URL not reachable at "
          ∷ url
          ∷ codes " "
          ∷ dash
          ∷ codes
              " machine will be registered with unreachable host. Data providers can't relay instructions"
          ∷ []))
        (codes "Ensure the host is accessible and EXT_PROXY_URL or -h flag points to the right URL")

unfoldable pub tee_machine_results : Site → List CheckResult
tee_machine_results site = t1 site ∷ t5 site ∷ t10 site ∷ []

-- RegisterTeeMachineChecks, which does not read its path
unfoldable pub register_tee_machine_checks : Site → Bytes → Report → Report
register_tee_machine_checks site path report = add_all (tee_machine_results site) report

-- a result of the last step
abbrev testing : Bytes → Bytes → Status → Bytes → Bytes → CheckResult
testing = check_result (codes "test")

e1_result : Status → Bytes → Bytes → CheckResult
e1_result = testing (codes "E1") (codes "INSTRUCTION_SENDER valid")

e1_of : Bool → Bytes → CheckResult
unfolding e1_result
e1_of missing sender =
    if missing
    then e1_result skip
        (text (codes "extension.env not found " ∷ dash ∷ codes " run pre-build.sh first" ∷ [])) []
    else if is_empty sender
    then e1_result fail
        (text (codes "INSTRUCTION_SENDER not set " ∷ dash ∷ codes " run pre-build.sh" ∷ []))
        (codes "Run scripts/pre-build.sh to deploy and register the extension")
    else if not (address_regex sender)
    then e1_result fail (codes "INSTRUCTION_SENDER malformed")
        (codes "Delete config/extension.env and re-run scripts/pre-build.sh")
    else e1_result pass sender []

-- E1
unfoldable pub e1 : Site → Bytes → CheckResult
unfolding e1_of e1_result
e1 site path =
    if is_empty path
    then e1_result skip (codes "no --config provided") []
    else e1_of (site.not_exist path) (parse_extension_env site path).instruction_sender

e3_result : Status → Bytes → Bytes → CheckResult
e3_result = testing (codes "E3") (codes "proxy reachable for test results")

-- E3
unfoldable pub e3 : Site → CheckResult
unfolding e3_result
e3 site =
    let url = site.getenv (codes "EXT_PROXY_URL") in
    if is_empty url
    then e3_result skip (codes "EXT_PROXY_URL not set") []
    else if reachable site url
    then e3_result pass (codes "proxy reachable for test result polling") []
    else e3_result warn
        (text (codes "proxy not reachable " ∷ dash ∷ codes " test results cannot be polled" ∷ []))
        (codes "Start the proxy or check EXT_PROXY_URL")

-- E6
unfoldable pub e6 : CheckResult
e6 =
    testing (codes "E6") (codes "OPType/OPCommand alignment info") pass
      (text (
        codes "OPType/OPCommand hashes are validated at runtime "
        ∷ dash
        ∷ codes " if a 501 error occurs, check the hash values in the error message"
        ∷ []))
      []

unfoldable pub test_results : Site → Bytes → List CheckResult
test_results site path = e1 site path ∷ e3 site ∷ e6 ∷ []

-- RegisterTestChecks
unfoldable pub register_test_checks : Site → Bytes → Report → Report
register_test_checks site path report = add_all (test_results site path) report

-- RegisterStubChecks
unfoldable pub register_stub_checks : Bytes → Bytes → Bytes → Report → Report
register_stub_checks step id_range name report =
    add (check_result step id_range name skip (codes "not yet implemented") []) report
