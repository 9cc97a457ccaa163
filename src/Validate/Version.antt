-- ===== src/Validate/Version.antt =====
-- RegisterTeeVersionChecks in packages/fcc-extension/tools/pkg/validate/checks.go.
use averlock.Prelude.{
  Bool, ◌&&◌, not, List, [], ◌∷◌, Bytes, codes, bytes_eq, is_empty, if◌then◌else◌,
}
use averlock.Tools.Report.{Status, CheckResult, Report, pass, warn, fail, skip}
use averlock.Text.{trim_space}
use averlock.Validate.{
  Site, text, dash, extension_id_regex, equal_fold, reachable, check_result, add_all,
}
use averlock.Validate.EnvFile.{parse_extension_env}

-- a result of the step
abbrev tee_version : Bytes → Bytes → Status → Bytes → Bytes → CheckResult
tee_version = check_result (codes "tee-version")

v2_result : Status → Bytes → Bytes → CheckResult
v2_result = tee_version (codes "V2") (codes "extension owner key")

-- V2
unfoldable pub v2 : Site → CheckResult
unfolding v2_result
v2 site =
    let local_mode = site.getenv (codes "LOCAL_MODE") in
    if equal_fold (codes "keystore") (trim_space (site.getenv (codes "SIGNER_MODE")))
    then v2_result pass (codes "using encrypted deployment keystore") []
    else if not (is_empty (site.getenv (codes "EXTENSION_OWNER_KEY")))
    then v2_result pass (codes "EXTENSION_OWNER_KEY is configured") []
    else if not (is_empty (site.getenv (codes "DEPLOYMENT_PRIVATE_KEY")))
    then v2_result pass (codes "using DEPLOYMENT_PRIVATE_KEY (EXTENSION_OWNER_KEY not set)") []
    else if not (bytes_eq local_mode (codes "true")) && not (is_empty local_mode)
    then v2_result warn
        (text (
          codes "neither EXTENSION_OWNER_KEY nor DEPLOYMENT_PRIVATE_KEY set "
          ∷ dash
          ∷ codes " AddTeeVersion will use dev key which isn't the extension owner on Coston2"
          ∷ []))
        (codes "Set EXTENSION_OWNER_KEY or DEPLOYMENT_PRIVATE_KEY in .env")
    else v2_result pass (codes "using dev key (local mode)") []

v4_result : Status → Bytes → Bytes → CheckResult
v4_result = tee_version (codes "V4") (codes "EXTENSION_ID valid")

-- V4 for an id read from the file, and whether there is no such file
v4_of : Bool → Bytes → CheckResult
unfolding v4_result
v4_of missing id =
    if is_empty id
    then if missing
      then v4_result skip
          (text (codes "extension.env not found " ∷ dash ∷ codes " run pre-build.sh first" ∷ [])) []
      else v4_result fail (codes "EXTENSION_ID not set")
          (codes "Delete config/extension.env and re-run scripts/pre-build.sh")
    else if not (extension_id_regex id)
    then v4_result fail (codes "EXTENSION_ID malformed")
        (codes "Delete config/extension.env and re-run scripts/pre-build.sh")
    else v4_result pass id []

-- V4; parseExtensionEnv never returns an error
unfoldable pub v4 : Site → Bytes → CheckResult
unfolding v4_of v4_result
v4 site path =
    if is_empty path
    then v4_result skip (codes "no --config provided") []
    else v4_of (site.not_exist path) (parse_extension_env site path).extension_id

v6_result : Status → Bytes → Bytes → CheckResult
v6_result = tee_version (codes "V6") (codes "proxy reachable")

-- V6
unfoldable pub v6 : Site → CheckResult
unfolding v6_result
v6 site =
    let url = site.getenv (codes "EXT_PROXY_URL") in
    if is_empty url
    then v6_result skip
        (text
          (codes "EXT_PROXY_URL not set " ∷ dash ∷ codes " allow-tee-version uses -p flag" ∷ []))
        []
    else if reachable site url
    then v6_result pass (text (codes "proxy reachable at " ∷ url ∷ [])) []
    else v6_result warn
        (text (
          codes "proxy not reachable at "
          ∷ url
          ∷ codes " "
          ∷ dash
          ∷ codes " start services first"
          ∷ []))
        (codes "Start the proxy or check EXT_PROXY_URL")

unfoldable pub tee_version_results : Site → Bytes → List CheckResult
tee_version_results site path = v2 site ∷ v4 site path ∷ v6 site ∷ []

-- RegisterTeeVersionChecks
unfoldable pub register_tee_version_checks : Site → Bytes → Report → Report
register_tee_version_checks site path report = add_all (tee_version_results site path) report
