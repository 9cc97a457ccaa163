-- ===== src/Validate/Register.antt =====
-- RegisterRegistrationChecks in packages/fcc-extension/tools/pkg/validate/checks.go.
pub mod Verdict
use averlock.Prelude.{
  ℕ, zero, suc, ◌+◌, ◌-◌, ◌*◌, ◌%◌, ◌^◌, Bool, true, false, ◌||◌, ◌&&◌, not, Option, none, some,
  List, [], ◌∷◌, ◌++◌, Bytes, codes, bytes_eq, is_empty, length, ltb, leb, drop, ◌==◌,
  if◌then◌else◌, Result, ok, err,
}
use averlock.Uint256.{to_string}
use averlock.Tools.Report.{CheckResult, Report, pass, warn, fail, skip}
use averlock.Validate.{
  Address, AddressText, Site, Client, ExtensionManager, OwnerAllowlist, text, dash, quote,
  address_regex, extension_id_regex, check_result, add_all,
}
use averlock.Validate.EnvFile.{ExtensionEnv, parse_extension_env}

-- a result of the step
abbrev register : Bytes → Bytes → ℕ → Bytes → Bytes → CheckResult
register = check_result (codes "register")

-- all the checks at once
all_checks : ℕ → Bytes → CheckResult
all_checks status message = register (codes "R1-R7") (codes "registration checks") status message []

hex_value : ℕ → ℕ
hex_value c = if leb c b'9' then c - b'0' else if leb c b'F' then c - 55 else c - 87

hex_from : ℕ → Bytes → ℕ
unfolding hex_value
hex_from n [] = n
hex_from n (c ∷ s) = hex_from (n * 16 + hex_value c) s

-- `extensionID.SetString(extIDStr[2:], 16)`, of hexadecimal digits
unfoldable pub extension_id_of : Bytes → ℕ
unfolding hex_from
extension_id_of s = hex_from 0 (drop 2 s)

-- R1, and `counter`
unfoldable pub r1 : Result Bytes ℕ → CheckResult
r1 (err e) =
    register (codes "R1") (codes "next public extension id") fail
      (text (codes "failed to query nextPublicExtensionId: " ∷ e ∷ [])) []
r1 (ok counter) =
    if counter == 0
    then register (codes "R1") (codes "next public extension id") warn
        (text (
          codes "nextPublicExtensionId is 0 "
          ∷ dash
          ∷ codes " no public extensions registered yet"
          ∷ []))
        []
    else register (codes "R1") (codes "next public extension id") pass
        (text (codes "nextPublicExtensionId = " ∷ to_string counter ∷ [])) []

-- R2, the format
unfoldable pub malformed : Bytes → CheckResult
malformed id =
    register (codes "R2") (codes "EXTENSION_ID format") fail
      (text (codes "malformed EXTENSION_ID: " ∷ quote id ∷ []))
      (codes "Delete config/extension.env and re-run scripts/pre-build.sh")

-- R2, the sender on chain
unfoldable pub r2 : AddressText → Bytes → Result Bytes Address → CheckResult
r2 addr sender (err e) =
    register (codes "R2") (codes "instruction sender matches on-chain") fail
      (text (codes "failed to query instruction sender: " ∷ e ∷ [])) []
r2 addr sender (ok on_chain) =
    if on_chain == addr.hex_to_address sender
    then register (codes "R2") (codes "instruction sender matches on-chain") pass
        (text (codes "on-chain sender " ∷ addr.hex on_chain ∷ codes " matches extension.env" ∷ []))
        []
    else register (codes "R2") (codes "instruction sender matches on-chain") fail
        (text
          (codes "on-chain sender " ∷ addr.hex on_chain ∷ codes " != extension.env " ∷ sender ∷ []))
        (codes "Re-register the extension or update extension.env")

unfoldable pub r3 : Result Bytes Bool → CheckResult
r3 (err e) =
    register (codes "R3") (codes "deployer is allowed TEE machine owner") fail
      (text (codes "failed to query allowlist: " ∷ e ∷ [])) []
r3 (ok true) =
    register (codes "R3") (codes "deployer is allowed TEE machine owner") pass
      (codes "deployer is on the TEE machine owner allowlist") []
r3 (ok false) =
    register (codes "R3") (codes "deployer is allowed TEE machine owner") fail
      (codes "deployer is NOT on the TEE machine owner allowlist")
      (codes "Run the register step to add the deployer as a TEE machine owner")

unfoldable pub r4 : Result Bytes Bool → CheckResult
r4 (err e) =
    register (codes "R4") (codes "EVM key type supported") fail
      (text (codes "failed to query key type support: " ∷ e ∷ [])) []
r4 (ok true) =
    register (codes "R4") (codes "EVM key type supported") pass
      (codes "EVM key type is supported for this extension") []
r4 (ok false) =
    register (codes "R4") (codes "EVM key type supported") fail
      (codes "EVM key type is NOT supported for this extension")
      (codes "Run the register step to add EVM key type support")

is_sender : Address → Result Bytes Address → Bool
is_sender expected (err e) = false
is_sender expected (ok sender) = sender == expected

-- the loop of R7 over the ids from `i`; an id whose query fails is passed over
unfoldable pub matching_ids : ExtensionManager → Address → ℕ → ℕ → List Bytes
unfolding is_sender
matching_ids registry expected i zero = []
matching_ids registry expected i (suc n) =
    let more = matching_ids registry expected (i + 1) n in
    if is_sender expected (registry.get_tee_extension_instructions_sender i)
    then to_string i ∷ more
    else more

-- `counter.Int64()`, as the number of rounds of a loop below it
unfoldable pub rounds : ℕ → ℕ
rounds counter = if ltb (counter % 2 ^ 64) (2 ^ 63) then counter % 2 ^ 64 else 0

-- `strings.Join(ids, ", ")`
join : List Bytes → Bytes
join [] = []
join (id ∷ []) = id
join (id ∷ next ∷ ids) = id ++ (codes ", " ++ join (next ∷ ids))

unfoldable pub r7 : Bytes → List Bytes → CheckResult
unfolding join
r7 sender ids =
    if ltb 1 (length ids)
    then register (codes "R7") (codes "unique instruction sender") warn
        (text (
          codes "INSTRUCTION_SENDER "
          ∷ sender
          ∷ codes " is used by multiple extensions: "
          ∷ join ids
          ∷ []))
        []
    else register (codes "R7") (codes "unique instruction sender") pass
        (codes "instruction sender is unique across registered extensions") []

-- what the checks are given; the contracts' bindings or the client may be nil, and so may the key
pub record Given : Type 0 where
  pub client : Option Client
  pub key : Option Address
  pub registry : Option ExtensionManager
  pub allowlist : Option OwnerAllowlist
  pub evm_type : Bytes

-- `registry`, where both it and the client are there
unfoldable pub connected : Given → Option ExtensionManager
connected given = elim given.client [ none ↦ none | some client ↦ given.registry ]

unfoldable pub results_r1 : Option ExtensionManager → List CheckResult
results_r1 none = []
results_r1 (some registry) = r1 registry.next_public_extension_id ∷ []

unfoldable pub results_r2 : AddressText → Bytes → ℕ → Option ExtensionManager → List CheckResult
results_r2 addr sender id none = []
results_r2 addr sender id (some registry) =
    if address_regex sender
    then r2 addr sender (registry.get_tee_extension_instructions_sender id) ∷ []
    else []

unfoldable pub results_r3 :
    ℕ → Option Client → Option Address → Option OwnerAllowlist → List CheckResult
results_r3 id (some client) (some deployer) (some allowlist) =
    r3 (allowlist.is_allowed_tee_machine_owner id deployer) ∷ []
results_r3 id _ _ _ = []

unfoldable pub results_r4 : Bytes → ℕ → Option ExtensionManager → List CheckResult
results_r4 evm_type id none = []
results_r4 evm_type id (some registry) = r4 (registry.is_key_type_supported id evm_type) ∷ []

-- R7, for a counter that has been read
counted : AddressText → Bytes → ExtensionManager → Result Bytes ℕ → List CheckResult
counted addr sender registry (err e) = []
counted addr sender registry (ok counter) =
    if not (counter == 0) && address_regex sender
    then r7 sender (matching_ids registry (addr.hex_to_address sender) 0 (rounds counter)) ∷ []
    else []

unfoldable pub results_r7 : AddressText → Bytes → Option ExtensionManager → List CheckResult
unfolding counted
results_r7 addr sender none = []
results_r7 addr sender (some registry) =
    counted addr sender registry registry.next_public_extension_id

-- R2, R3, R4 and R7, for an id in its format
unfoldable pub on_chain_results : AddressText → Given → ℕ → Bytes → List CheckResult
on_chain_results addr given id sender =
    results_r2 addr sender id (connected given)
    ++ (results_r3 id given.client given.key given.allowlist
        ++ (results_r4 given.evm_type id (connected given)
            ++ results_r7 addr sender (connected given)))

-- the results for the two values of extension.env
unfoldable pub entry_results : AddressText → Given → ExtensionEnv → List CheckResult
unfolding all_checks
entry_results addr given e =
    if is_empty e.extension_id && is_empty e.instruction_sender
    then all_checks skip (
        text
          (codes "config/extension.env not found " ∷ dash ∷ codes " run pre-build.sh first" ∷ []))
      ∷ []
    else results_r1 (connected given)
      ++ (if extension_id_regex e.extension_id
          then on_chain_results addr given (extension_id_of e.extension_id) e.instruction_sender
          else malformed e.extension_id ∷ [])

-- the results of RegisterRegistrationChecks; parseExtensionEnv never returns an error
unfoldable pub registration_results : AddressText → Site → Given → Bytes → List CheckResult
unfolding all_checks
registration_results addr site given path =
    if is_empty path
    then all_checks skip (codes "no --config path provided") ∷ []
    else entry_results addr given (parse_extension_env site path)

-- RegisterRegistrationChecks
unfoldable pub register_registration_checks : AddressText → Site → Given → Bytes → Report → Report
register_registration_checks addr site given path report =
    add_all (registration_results addr site given path) report
