-- ===== src/Signer/Proxy.antt =====
-- The key of the proxy: packages/fcc-extension/proxy/keystore/keystore.go.
pub mod Checked
use averlock.Prelude.{
  ℕ, Bool, true, false, ◌||◌, not, Option, none, some, List, [], ◌∷◌, ◌++◌, Bytes, codes, is_empty,
  ◌==◌, if◌then◌else◌, Result, ok, err, or_err, fail_if, ◌>>=◌, ◌>>◌,
}
use averlock.Store.Config.{parse_uint}
use averlock.Validate.{Address}
use averlock.Signer.{Keys, Process, Secret, password, private_key, trimmed_env}

pub data ProxyError : Type 0 where
  raw_key_set : ProxyError
  chain_mismatch : ProxyError
  bad_expected_address : ProxyError
  no_path : ProxyError
  reading_keystore : ProxyError
  empty_password : ProxyError
  reading_password : ProxyError
  decrypting_keystore : ProxyError
  address_mismatch : Address → ProxyError

-- keystorePassword, with what readInteractivePassword gives
unfoldable pub keystore_password : Process → Result ProxyError Bytes
keystore_password process = elim (process.lookup_env (codes "PROXY_KEYSTORE_PASSWORD")) [
  | none ↦ or_err reading_password process.read_password
  | some given ↦ if is_empty given then err empty_password else ok given
]

or_zero : Option ℕ → ℕ
or_zero none = 0
or_zero (some n) = n

module _ {K : Type 0} (keys : Keys K) (process : Process) where
  -- the checks before the key is read: the expected address and the encrypted key
  unfoldable pub before_key : ℕ → Result ProxyError (Address × Bytes)
  unfolding or_zero
  before_key actual_chain_id = do
    let chain = or_zero (parse_uint (trimmed_env process (codes "PROXY_EXPECTED_CHAIN_ID")) 64)
    let expected = trimmed_env process (codes "PROXY_EXPECTED_SIGNER_ADDRESS")
    let path = trimmed_env process (codes "PROXY_KEYSTORE_PATH")
    fail_if
        (not (is_empty (trimmed_env process (codes "PROXY_PRIVATE_KEY")))
          || not (is_empty (trimmed_env process (codes "PRIVATE_KEY"))))
        raw_key_set
    fail_if (chain == 0 || not (chain == actual_chain_id)) chain_mismatch
    fail_if (not (keys.is_hex_address expected) || keys.hex_to_address expected == 0)
        bad_expected_address
    fail_if (is_empty path) no_path
    encrypted ← or_err reading_keystore (process.read_file path)
    ok (keys.hex_to_address expected, encrypted)

  -- the comparison of the key's address; a Key without a PrivateKey is a nil dereference, `none`
  unfoldable pub check_address :
      Address → Bytes → Option (Option K) → Option (Result ProxyError K) × List (Secret K)
  check_address expected typed none = (some (err decrypting_keystore), password typed ∷ [])
  check_address expected typed (some none) = (none, password typed ∷ [])
  check_address expected typed (some (some key)) =
      let address = keys.pubkey_to_address key in
      if not (address == expected)
      then (some (err (address_mismatch address)), private_key key ∷ password typed ∷ [])
      else (some (ok key), password typed ∷ [])

  -- privateKeyFromKeystore, with the secrets that it clears; `none` is a panic
  unfoldable pub private_key_from_keystore : ℕ → Option (Result ProxyError K) × List (Secret K)
  private_key_from_keystore actual_chain_id = elim (before_key actual_chain_id) [
    | err e ↦ (some (err e), [])
    | ok (expected, encrypted) ↦ elim (keystore_password process) [
      | err e ↦ (some (err e), [])
      | ok typed ↦ check_address expected typed (keys.decrypt_key encrypted typed)
    ]
  ]
