-- ===== src/Signer/Tests.antt =====
-- Keys from concrete variables: a raw key for the deployment, and an encrypted one for the proxy.
use averlock.Prelude.{
  ℕ, suc, ◌≡◌, ◌≢◌, refl, true, Option, none, some, [], ◌∷◌, Bytes, codes, bytes_eq, if◌then◌else◌,
  ok, pos,
}
use averlock.Text.{trim_space}
use averlock.Store.Config.{parse_uint}
use averlock.Uint256.{scan_nat, scan, set_string}
use averlock.Signer.{
  Keys, Process, password, trimmed_env, getenv, load_from_environment, config_from_env, or_default,
  to_lower, load, load_key, same_chain, check_address, load_raw, switch_mode,
}
use averlock.Signer.Checked.{IsLoaded, load_from_environment-IsLoaded}
use averlock.Signer.Proxy.{private_key_from_keystore, before_key, keystore_password}
use averlock.Signer.Proxy
use averlock.Validate.{has_prefix}
use averlock.Signer.Proxy.Checked.{private_key_from_keystore-ok}

-- keys are numbers, and a key's address is the number after it
abbrev keys : Keys ℕ
keys = record {
  pubkey_to_address = suc;
  hex_to_ecdsa = λ digits. some 6;
  decrypt_key = λ encrypted typed. some (some 6);
  is_hex_address = λ s. true;
  hex_to_address = λ s. 7;
}

abbrev lookup_env : Bytes → Option Bytes
lookup_env name =
    if bytes_eq name (codes "SIGNER_MODE")
    then some (codes " Raw")
    else if bytes_eq name (codes "DEPLOYMENT_PRIVATE_KEY")
    then some (codes "0x06")
    else if bytes_eq name (codes "PROXY_EXPECTED_CHAIN_ID")
    then some (codes "114 ")
    else if bytes_eq name (codes "PROXY_KEYSTORE_PATH")
    then some (codes "key.json")
    else if bytes_eq name (codes "PROXY_KEYSTORE_PASSWORD")
    then some (codes "pw")
    else none

abbrev process : Process
process = record {
  lookup_env = lookup_env;
  read_file = λ path. some (codes "{}");
  user_home_dir = none;
  read_password = none;
  clean = λ path. path;
}

loaded : (load_from_environment keys process (some (pos 114))).0 ≡ ok (6, 7)
unfolding load_from_environment config_from_env trimmed_env getenv or_default to_lower load load_key
    same_chain check_address load_raw switch_mode trim_space scan_nat scan set_string has_prefix
loaded = refl

load_from_environment-IsLoaded_example : IsLoaded keys process (some (pos 114)) 6 7
load_from_environment-IsLoaded_example =
    load_from_environment-IsLoaded keys process (some (pos 114)) 6 7 loaded

proxied : (private_key_from_keystore keys process 114).0 ≡ some (ok 6)
unfolding private_key_from_keystore before_key keystore_password trimmed_env getenv
    Proxy.check_address trim_space parse_uint scan_nat scan
proxied = refl

private_key_from_keystore-ok_example :
    let expected = trimmed_env process (codes "PROXY_EXPECTED_SIGNER_ADDRESS") in
    (trimmed_env process (codes "PROXY_PRIVATE_KEY") ≡ [])
    × (trimmed_env process (codes "PRIVATE_KEY") ≡ [])
    × (parse_uint (trimmed_env process (codes "PROXY_EXPECTED_CHAIN_ID")) 64 ≡ some 114)
    × (◌≢◌ {A = ℕ} 114 0)
    × (keys.pubkey_to_address 6 ≡ keys.hex_to_address expected)
    × (keys.hex_to_address expected ≢ 0)
    × ((encrypted : Bytes) × (typed : Bytes) × (process.read_file
            (trimmed_env process (codes "PROXY_KEYSTORE_PATH"))
          ≡ some encrypted)
        × (keys.decrypt_key encrypted typed ≡ some (some 6))
        × ((private_key_from_keystore keys process 114).1 ≡ password typed ∷ []))
private_key_from_keystore-ok_example = private_key_from_keystore-ok keys process 114 6 proxied
