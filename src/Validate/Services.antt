-- ===== src/Validate/Services.antt =====
-- RegisterServicesChecks in packages/fcc-extension/tools/pkg/validate/checks.go.
use averlock.Prelude.{
  ◌||◌, ◌&&◌, not, List, [], ◌∷◌, Bytes, codes, bytes_eq, is_empty, if◌then◌else◌,
}
use averlock.Tools.Report.{Status, CheckResult, Report, pass, warn, fail, skip}
use averlock.Text.{trim_space}
use averlock.Validate.{
  Site, text, dash, quote, extension_id_regex, equal_fold, reachable, check_result, add_all,
}
use averlock.Validate.EnvFile.{parse_extension_env}

-- a result of the step
abbrev services : Bytes → Bytes → Status → Bytes → Bytes → CheckResult
services = check_result (codes "services")

s2_result : Status → Bytes → Bytes → CheckResult
s2_result = services (codes "S2") (codes "EXTENSION_ID is set and well-formed")

s2_of : Bytes → CheckResult
unfolding s2_result
s2_of id =
    if is_empty id
    then s2_result fail (codes "EXTENSION_ID is empty or not found in extension.env")
        (codes "Delete config/extension.env and re-run scripts/pre-build.sh")
    else if not (extension_id_regex id)
    then s2_result fail (text (codes "EXTENSION_ID has invalid format: " ∷ quote id ∷ []))
        (codes "Delete config/extension.env and re-run scripts/pre-build.sh")
    else s2_result pass id []

-- S2
unfoldable pub s2 : Site → Bytes → CheckResult
unfolding s2_of s2_result
s2 site path =
    if is_empty path
    then s2_result skip (codes "run pre-build.sh first") []
    else s2_of (parse_extension_env site path).extension_id

-- EXTENSION_PORT, or its default
unfoldable pub port_of : Bytes → Bytes
port_of port = if is_empty port then codes "7702" else port

-- S5
unfoldable pub s5 : Site → CheckResult
unfolding port_of
s5 site =
    let port = port_of (site.getenv (codes "EXTENSION_PORT")) in
    if site.dial (text (codes "localhost:" ∷ port ∷ []))
    then services (codes "S5") (codes "extension port not in use") warn
        (text (
          codes "port "
          ∷ port
          ∷ codes " is already in use "
          ∷ dash
          ∷ codes " extension server will fail to bind"
          ∷ []))
        (codes "Stop the process using that port or change EXTENSION_PORT")
    else services (codes "S5") (codes "extension port not in use") pass (codes "port available") []

-- S7
unfoldable pub s7 : Site → CheckResult
s7 site =
    let ext_port = site.getenv (codes "EXTENSION_PORT") in
    let sign_port = site.getenv (codes "SIGN_PORT") in
    services (codes "S7") (codes "port configuration") pass
      (if not (is_empty ext_port) || not (is_empty sign_port)
        then text (codes "EXTENSION_PORT=" ∷ ext_port ∷ codes ", SIGN_PORT=" ∷ sign_port ∷ [])
        else codes "using defaults (standalone: 8080/9090, Docker: 7702/7701)")
      []

-- S9
unfoldable pub s9 : Site → CheckResult
s9 site =
    let url = site.getenv (codes "EXT_PROXY_URL") in
    if is_empty url
    then services (codes "S9") (codes "EXT_PROXY_URL reachable") skip
        (codes "EXT_PROXY_URL not set") []
    else if reachable site url
    then services (codes "S9") (codes "EXT_PROXY_URL reachable") pass
        (text (codes "proxy reachable at " ∷ url ∷ [])) []
    else services (codes "S9") (codes "EXT_PROXY_URL reachable") warn
        (text (
          codes "proxy not reachable at "
          ∷ url
          ∷ codes " "
          ∷ dash
          ∷ codes " is the proxy running?"
          ∷ []))
        (codes "Start the proxy or check EXT_PROXY_URL")

s10_result : Status → Bytes → Bytes → CheckResult
s10_result = services (codes "S10") (codes "PROXY_PRIVATE_KEY set on non-local")

-- S10
unfoldable pub s10 : Site → CheckResult
unfolding s10_result
s10 site =
    let local_mode = site.getenv (codes "LOCAL_MODE") in
    let private_key = site.getenv (codes "PROXY_PRIVATE_KEY") in
    let keystore_mode =
      equal_fold (codes "keystore") (trim_space (site.getenv (codes "PROXY_SIGNER_MODE"))) in
    if bytes_eq local_mode (codes "true") || is_empty local_mode
    then s10_result pass (codes "local mode, dev key OK") []
    else if keystore_mode && not (is_empty (trim_space (site.getenv (codes "PROXY_KEYSTORE_PATH"))))
    then services (codes "S10") (codes "proxy signer configured") pass
        (codes "encrypted proxy keystore configured") []
    else if bytes_eq local_mode (codes "false") && is_empty private_key
    then s10_result warn
        (text (
          codes "PROXY_PRIVATE_KEY not set in non-local mode "
          ∷ dash
          ∷ codes " proxy will use default key"
          ∷ []))
        (codes "Set PROXY_PRIVATE_KEY in .env for non-local deployments")
    else s10_result pass (codes "PROXY_PRIVATE_KEY is configured") []

unfoldable pub services_results : Site → Bytes → List CheckResult
services_results site path = s2 site path ∷ s5 site ∷ s7 site ∷ s9 site ∷ s10 site ∷ []

-- RegisterServicesChecks
unfoldable pub register_services_checks : Site → Bytes → Report → Report
register_services_checks site path report = add_all (services_results site path) report
