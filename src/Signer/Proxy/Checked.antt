-- ===== src/Signer/Proxy/Checked.antt =====
-- The key that packages/fcc-extension/proxy/keystore/keystore.go hands out.
use averlock.Prelude.{
  ℕ, ◌≡◌, ◌≢◌, ◌∙◌, Option, none, some, [], ◌∷◌, Bytes, codes, arith, ok, Result-cases, inl, inr,
}
use averlock.Store.Config.{parse_uint}
use averlock.Validate.{Address}
use averlock.Signer.{Keys, Process, password, trimmed_env}
use averlock.Signer.Proxy.{before_key, check_address, keystore_password, private_key_from_keystore}

module _ {K : Type 0} (keys : Keys K) (process : Process) where
  before_key_lem :
      (actual : ℕ) (expected : Address) (encrypted : Bytes)
      → before_key keys process actual ≡ ok (expected, encrypted)
      → (trimmed_env process (codes "PROXY_PRIVATE_KEY") ≡ [])
        × (trimmed_env process (codes "PRIVATE_KEY") ≡ [])
        × (parse_uint (trimmed_env process (codes "PROXY_EXPECTED_CHAIN_ID")) 64 ≡ some actual)
        × (actual ≢ 0)
        × (expected
            ≡ keys.hex_to_address (trimmed_env process (codes "PROXY_EXPECTED_SIGNER_ADDRESS")))
        × (expected ≢ 0)
        × (process.read_file (trimmed_env process (codes "PROXY_KEYSTORE_PATH")) ≡ some encrypted)
  unfolding before_key
  before_key_lem actual expected encrypted h = (
    ground (arith, h),
    ground (arith, h),
    ground (arith, h),
    ground (arith, h),
    ground (arith, h),
    ground (arith, h),
    ground (arith, h),
  )

  proxy_address_lem :
      (expected : Address) (typed : Bytes) (decrypted : Option (Option K)) (key : K)
      → (check_address keys process expected typed decrypted).0 ≡ some (ok key)
      → (decrypted ≡ some (some key))
        × (keys.pubkey_to_address key ≡ expected)
        × ((check_address keys process expected typed decrypted).1 ≡ password typed ∷ [])
  unfolding check_address
  proxy_address_lem expected typed none key h = absurd (ground (arith, h))
  proxy_address_lem expected typed (some none) key h = absurd (ground (arith, h))
  proxy_address_lem expected typed (some (some k)) key h =
      (ground (arith, h), ground (arith, h), ground (arith, h))

  -- The key of the proxy is handed out only where both raw keys are unset, the chain's ID is the
  -- positive uint64 that PROXY_EXPECTED_CHAIN_ID names, and the key's address is the one that
  -- PROXY_EXPECTED_SIGNER_ADDRESS names and is not zero; the key was decrypted from the file at
  -- PROXY_KEYSTORE_PATH, and the password alone is overwritten.
  pub private_key_from_keystore-ok :
      (actual : ℕ) (key : K)
      → let out = private_key_from_keystore keys process actual in
        let expected = trimmed_env process (codes "PROXY_EXPECTED_SIGNER_ADDRESS") in
        out.0 ≡ some (ok key)
        → (trimmed_env process (codes "PROXY_PRIVATE_KEY") ≡ [])
          × (trimmed_env process (codes "PRIVATE_KEY") ≡ [])
          × (parse_uint (trimmed_env process (codes "PROXY_EXPECTED_CHAIN_ID")) 64 ≡ some actual)
          × (actual ≢ 0)
          × (keys.pubkey_to_address key ≡ keys.hex_to_address expected)
          × (keys.hex_to_address expected ≢ 0)
          × ((encrypted : Bytes) × (typed : Bytes) × (process.read_file
                  (trimmed_env process (codes "PROXY_KEYSTORE_PATH"))
                ≡ some encrypted)
              × (keys.decrypt_key encrypted typed ≡ some (some key))
              × (out.1 ≡ password typed ∷ []))
  unfolding private_key_from_keystore
  private_key_from_keystore-ok actual key h = elim (Result-cases (before_key keys process actual)) [
    | inr (e, failed) ↦ absurd (ground (arith, h, failed))
    | inl ((expected, encrypted), passed) ↦ elim (Result-cases (keystore_password process)) [
      | inr (e, failed) ↦ absurd (ground (arith, h, passed, failed))
      | inl (typed, given) ↦
          let checks = before_key_lem actual expected encrypted passed in
          let key_checks =
            proxy_address_lem expected typed (keys.decrypt_key encrypted typed) key
              (ground (arith, h, passed, given)) in
          (
            checks.0,
            checks.1,
            checks.2,
            checks.3,
            key_checks.1 ∙ checks.4,
            λ z. checks.5 (checks.4 ∙ z),
            (encrypted, typed, checks.6, key_checks.0, ground (arith, passed, given, key_checks.2)),
          )
    ]
  ]
