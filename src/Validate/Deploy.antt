-- ===== src/Validate/Deploy.antt =====
-- RegisterDeployChecks, CheckDeployerKeySource and checkChainID in
-- packages/fcc-extension/tools/pkg/validate/checks.go, and KeyHasFunds and
-- IsUsingDevKey of validate.go.
pub mod Verdict
use averlock.Prelude.{
  ℕ, Bool, true, false, ◌||◌, ◌&&◌, not, Option, none, some, List, [], ◌∷◌, ◌++◌, Bytes, codes,
  bytes_eq, is_empty, ltb, ◌==◌, if◌then◌else◌, Result, ok, err,
}
use averlock.Uint256.{to_string}
use averlock.Tools.Report.{CheckResult, Report, pass, warn, fail}
use averlock.Text.{trim_space}
use averlock.Validate.{
  Address, AddressText, Site, Client, text, dash, equal_fold, check_result, for_each, add_all,
}
use averlock.Validate.Addresses.{each_d3, zero_addrs, each_d1}
use averlock.Validate.EnvFile.{check_extension_env_format}

-- MinDeployBalance, in wei
abbrev pub min_deploy_balance : ℕ
min_deploy_balance = 10000000000000000

module _ (addr : AddressText) where
  funds_found : Address → ℕ → Result Bytes ℕ → Result Bytes (Unit {0})
  funds_found a min_wei (err e) = err (text (codes "cannot check deployer balance: " ∷ e ∷ []))
  funds_found a min_wei (ok balance) =
      if ltb balance min_wei
      then err (
          text (
            codes "deployer "
            ∷ addr.hex a
            ∷ codes " has insufficient funds (balance: "
            ∷ to_string balance
            ∷ codes " wei, minimum required: "
            ∷ to_string min_wei
            ∷ codes " wei). "
            ∷ codes "Fund this account before deploying"
            ∷ []))
      else ok tt

  -- KeyHasFunds, for the address of the key
  unfoldable pub key_has_funds : Option Client → Address → ℕ → Result Bytes (Unit {0})
  unfolding funds_found
  key_has_funds none a min_wei =
      err (codes "cannot check deployer balance: no chain client connected")
  key_has_funds (some client) a min_wei = funds_found a min_wei (client.balance_at a)

  funds_result : Result Bytes (Unit {0}) → CheckResult
  funds_result (err e) =
      check_result (codes "deploy") (codes "D5") (codes "deployer has sufficient funds") fail e
        (codes "Fund the deployer account before deploying")
  funds_result (ok _) =
      check_result (codes "deploy") (codes "D5") (codes "deployer has sufficient funds") pass
        (codes "balance above minimum threshold") []

  -- D5, the deployer's funds
  unfoldable pub d5_funds : Option Client → Option Address → List CheckResult
  unfolding funds_result key_has_funds
  d5_funds (some client) (some key) =
      funds_result (key_has_funds (some client) key min_deploy_balance) ∷ []
  d5_funds _ _ = []

-- chainName, of the decimal text of the id
chain_name : Bytes → Bytes
chain_name id =
    if bytes_eq id (codes "31337")
    then codes "Hardhat/Anvil (local devnet)"
    else if bytes_eq id (codes "114")
    then codes "Coston2 (testnet)"
    else if bytes_eq id (codes "14")
    then codes "Flare (mainnet)"
    else codes "unknown network"

-- checkChainID
unfoldable pub check_chain_id : Result Bytes ℕ → CheckResult
unfolding chain_name
check_chain_id (err e) =
    check_result (codes "deploy") (codes "D6") (codes "chain ID") fail
      (text (codes "failed to get chain ID: " ∷ e ∷ [])) (codes "Check CHAIN_URL")
check_chain_id (ok id) =
    check_result (codes "deploy") (codes "D6") (codes "chain ID") pass
      (text (
        codes "chain ID " ∷ to_string id ∷ codes " (" ∷ chain_name (to_string id) ∷ codes ")" ∷ []))
      []

unfoldable pub d6 : Option Client → List CheckResult
d6 none = []
d6 (some client) = check_chain_id client.chain_id ∷ []

-- the message with which D5 passes
abbrev key_source : Bytes → CheckResult
key_source = λ message.
    check_result (codes "deploy") (codes "D5") (codes "deployer key source") pass message []

-- CheckDeployerKeySource
unfoldable pub check_deployer_key_source : Site → CheckResult
check_deployer_key_source site =
    if equal_fold (codes "keystore") (trim_space (site.getenv (codes "SIGNER_MODE")))
      || (is_empty (site.getenv (codes "SIGNER_MODE"))
          && not (is_empty (site.getenv (codes "DEPLOYMENT_KEYSTORE_ACCOUNT"))))
    then key_source (codes "encrypted keystore signer configured")
    else if not (is_empty (site.getenv (codes "DEPLOYMENT_PRIVATE_KEY")))
    then key_source (codes "DEPLOYMENT_PRIVATE_KEY is set")
    else if bytes_eq (site.getenv (codes "LOCAL_MODE")) (codes "true")
        || is_empty (site.getenv (codes "LOCAL_MODE"))
    then key_source (codes "using Hardhat dev key (LOCAL_MODE)")
    else check_result (codes "deploy") (codes "D5") (codes "deployer key source") warn
        (text (
          codes "DEPLOYMENT_PRIVATE_KEY not set "
          ∷ dash
          ∷ codes " using Hardhat dev key which has no funds on Coston2"
          ∷ []))
        (codes "Set DEPLOYMENT_PRIVATE_KEY in .env to a funded account on the target network")

-- D7, for a path that is given
unfoldable pub d7 : Site → Bytes → List CheckResult
d7 site path = if is_empty path then [] else check_extension_env_format site path

-- what follows the two loops: D5, D6 and D7
unfoldable pub after_loops :
    AddressText → Site → Option Client → Option Address → Bytes → List CheckResult
after_loops addr site client key path =
    check_deployer_key_source site ∷ d5_funds addr client key ++ (d6 client ++ d7 site path)

-- the results of RegisterDeployChecks; the two loops take the entries of the map in the orders that
-- its iterations give
unfoldable pub deploy_results :
    AddressText
    → Site
    → Option Client
    → Option Address
    → List (Bytes × Address)
    → List (Bytes × Address)
    → Bytes
    → List CheckResult
deploy_results addr site client key first second path =
    each_d3 addr first
    ++ (each_d1 addr (zero_addrs addr first) client second ++ after_loops addr site client key path)

-- RegisterDeployChecks
unfoldable pub register_deploy_checks :
    AddressText
    → Site
    → Option Client
    → Option Address
    → List (Bytes × Address)
    → List (Bytes × Address)
    → Bytes
    → Report
    → Report
register_deploy_checks addr site client key first second path report =
    add_all (deploy_results addr site client key first second path) report

-- IsUsingDevKey
unfoldable pub is_using_dev_key : Site → Bool
is_using_dev_key site = is_empty (site.getenv (codes "DEPLOYMENT_PRIVATE_KEY"))
