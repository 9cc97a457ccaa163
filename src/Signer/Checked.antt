-- ===== src/Signer/Checked.antt =====
-- The keys that the loaders of packages/fcc-extension/tools/pkg/signer/signer.go hand out.
use averlock.Prelude.{
  ℕ, ◌<◌, ◌≡◌, ◌≢◌, refl, ◌∙◌, Bool, true, false, Option, none, some, List, [], ◌∷◌, Bytes, codes,
  arith, Result, ok, err, Result-cases, Bool-cases, inl, inr, ◌⊎◌, ℤ, pos, negsuc, is_nonpos,
}
use mathlib.Core.Path.{subst}
use averlock.Uint256.{set_string}
use averlock.Validate.{Address}
use averlock.Signer.{
  Keys, Process, Config, SignerError, Secret, password, private_key, trimmed_env, or_default,
  resolve_keystore_path, config_from_env, with_password, with_file, with_path, switch_mode,
  load_keystore, load_key, same_chain, check_address, load, load_from_environment,
}

-- A secret key is among those that are overwritten.
abbrev pub Clears : {K : Type 0} → K → List (Secret K) → Type 0
Clears key [] = ⊥
Clears key (password _ ∷ secrets) = Clears key secrets
Clears key (private_key other ∷ secrets) = (other ≡ key) ⊎ Clears key secrets

-- Only passwords are overwritten.
abbrev Passwords : {K : Type 0} → List (Secret K) → Type 0
Passwords [] = Unit
Passwords (password _ ∷ secrets) = Passwords secrets
Passwords (private_key _ ∷ secrets) = ⊥

kept_key :
    {K : Type 0} (key : K) (secrets : List (Secret K)) → Passwords secrets → ¬ Clears key secrets
kept_key key [] only c = c
kept_key key (password _ ∷ secrets) only c = kept_key key secrets only c
kept_key key (private_key _ ∷ secrets) only c = only

module _ {K : Type 0} (keys : Keys K) (process : Process) where
  -- What is known of a key that is handed out with its address.
  pub record IsLoaded (actual : Option ℤ) (key : K) (a : Address) : Type 0 where
    pub chain : ℕ
    pub chain_pos : 0 < chain
    pub same_chain : actual ≡ some (pos chain)
    pub named_chain :
        set_string (or_default (codes "114") (trimmed_env process (codes "EXPECTED_CHAIN_ID")))
        ≡ some (pos chain)
    pub own : a ≡ keys.pubkey_to_address key
    pub named : a ≡ keys.hex_to_address (trimmed_env process (codes "EXPECTED_SIGNER_ADDRESS"))
    pub nonzero : a ≢ 0
    pub kept : ¬ Clears key (load_from_environment keys process actual).1

  positive : (c : ℤ) → is_nonpos c ≡ false → (n : ℕ) × (0 < n) × (c ≡ pos n)
  positive (pos n) h = (n, ground (arith, h), refl)
  positive (negsuc n) h = absurd (cc h)

  with_password-Passwords :
      (encrypted : Bytes) (typed : Option Bytes)
      → Passwords (with_password keys process encrypted typed).1
  unfolding with_password
  with_password-Passwords encrypted none = tt
  with_password-Passwords encrypted (some typed) = tt

  with_file-Passwords : (file : Option Bytes) → Passwords (with_file keys process file).1
  unfolding with_file
  with_file-Passwords none = tt
  with_file-Passwords (some encrypted) = with_password-Passwords encrypted process.read_password

  with_path-Passwords :
      (path : Result SignerError Bytes) → Passwords (with_path keys process path).1
  unfolding with_path
  with_path-Passwords (err e) = tt
  with_path-Passwords (ok path) = with_file-Passwords (process.read_file path)

  switch_mode-Passwords :
      (cfg : Config) (keystore raw : Bool) → Passwords (switch_mode keys process cfg keystore raw).1
  unfolding switch_mode load_keystore
  switch_mode-Passwords cfg true raw =
      with_path-Passwords (resolve_keystore_path process cfg.keystore_path cfg.keystore_account)
  switch_mode-Passwords cfg false true = tt
  switch_mode-Passwords cfg false false = tt

  load_key-Passwords : (cfg : Config) → Passwords (load_key keys process cfg).1
  unfolding load_key
  load_key-Passwords cfg = switch_mode-Passwords cfg _ _

  config_from_env_lem :
      (cfg : Config)
      → config_from_env keys process ≡ ok cfg
      → (set_string (or_default (codes "114") (trimmed_env process (codes "EXPECTED_CHAIN_ID")))
          ≡ some cfg.expected_chain_id)
        × (is_nonpos cfg.expected_chain_id ≡ false)
        × (cfg.expected_address
            ≡ keys.hex_to_address (trimmed_env process (codes "EXPECTED_SIGNER_ADDRESS")))
  unfolding config_from_env
  config_from_env_lem cfg h = (ground (arith, h), ground (arith, h), ground (arith, h))

  same_chain-eq : (c : ℤ) (actual : Option ℤ) → same_chain c actual ≡ true → actual ≡ some c
  unfolding same_chain
  same_chain-eq c none h = absurd (cc h)
  same_chain-eq (pos n) (some (pos m)) h = ground (arith, h)
  same_chain-eq (pos n) (some (negsuc m)) h = absurd (cc h)
  same_chain-eq (negsuc n) (some (pos m)) h = absurd (cc h)
  same_chain-eq (negsuc n) (some (negsuc m)) h = ground (arith, h)

  load_lem :
      (cfg : Config) (actual : Option ℤ) (key : K) (a : Address)
      → (load keys process cfg actual).0 ≡ ok (key, a)
      → (actual ≡ some cfg.expected_chain_id)
        × ((load_key keys process cfg).0 ≡ ok key)
        × (a ≡ keys.pubkey_to_address key)
        × (a ≡ cfg.expected_address)
        × (a ≢ 0)
        × ((load keys process cfg actual).1 ≡ (load_key keys process cfg).1)
  unfolding load check_address
  load_lem cfg actual key a h = elim (Bool-cases (same_chain cfg.expected_chain_id actual)) [
    | inr other ↦ absurd (ground (arith, h, other))
    | inl same ↦ elim (Result-cases (load_key keys process cfg).0) [
      | inr (e, failed) ↦ absurd (ground (arith, h, same, failed))
      | inl (k, got) ↦ (
        same_chain-eq cfg.expected_chain_id actual same,
        ground (arith, h, same, got),
        ground (arith, h, same, got),
        ground (arith, h, same, got),
        ground (arith, h, same, got),
        ground (arith, h, same, got),
      )
    ]
  ]

  -- LoadFromEnvironment hands out a key only with its own address, where that is the address that
  -- EXPECTED_SIGNER_ADDRESS names and is not zero, and where the chain's ID is the positive number
  -- that EXPECTED_CHAIN_ID names, or 114 if it names none; that key is not among the secrets that
  -- are overwritten.
  pub load_from_environment-IsLoaded :
      (actual : Option ℤ) (key : K) (a : Address)
      → (load_from_environment keys process actual).0 ≡ ok (key, a)
      → IsLoaded actual key a
  unfolding load_from_environment
  load_from_environment-IsLoaded actual key a h =
      elim (Result-cases (config_from_env keys process)) [
        | inr (e, failed) ↦ absurd (ground (arith, h, failed))
        | inl (cfg, made) ↦
            let all_cleared : (load_from_environment keys process actual).1
                ≡ (load keys process cfg actual).1 =
              ground (arith, made) in
            let found : (load keys process cfg actual).0 ≡ ok (key, a) = ground (arith, h, made) in
            let (same, _, own, named, nonzero, cleared) = load_lem cfg actual key a found in
            let (chain, is_positive, expected) = config_from_env_lem cfg made in
            let (n, n_pos, is) = positive cfg.expected_chain_id is_positive in
            record {
              chain = n;
              chain_pos = n_pos;
              same_chain = ground (arith, same, is);
              named_chain = ground (arith, chain, is);
              own = own;
              named = named ∙ expected;
              nonzero = nonzero;
              kept = λ c.
                  kept_key key (load_key keys process cfg).1 (load_key-Passwords cfg)
                    (subst (Clears key) (all_cleared ∙ cleared) c);
            }
      ]
