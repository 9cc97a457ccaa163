-- ===== src/Signer.antt =====
-- The keys that sign the deployment's transactions: packages/fcc-extension/tools/pkg/signer/signer.go.
-- go-ethereum's keys, the files, the terminal and filepath.Clean are parameters.
pub mod Proxy
pub mod Checked
mod Tests
use averlock.Prelude.{
  ℕ, zero, suc, ◌+◌, Bool, true, false, ◌||◌, ◌&&◌, not, Option, none, some, List, [], ◌∷◌, ◌++◌,
  Bytes, codes, bytes_eq, is_empty, leb, length, drop, ◌==◌, if◌then◌else◌, Result, ok, err, or_err,
  fail_if, wrap, ◌>>=◌, ◌>>◌, ℤ, pos, negsuc, is_nonpos,
}
use averlock.Uint256.{set_string}
use averlock.Text.{trim_space}
use averlock.Validate.{Address, has_prefix}

-- crypto and accounts/keystore on private keys `K`, and the addresses of common: `decrypt_key` may
-- give a Key without a PrivateKey
pub record Keys (K : Type 0) : Type 0 where
  pub pubkey_to_address : K → Address
  pub hex_to_ecdsa : Bytes → Option K
  pub decrypt_key : Bytes → Bytes → Option (Option K)
  pub is_hex_address : Bytes → Bool
  pub hex_to_address : Bytes → Address

-- the process: its variables, set or not, its files, its home directory and the password that is
-- typed
pub record Process : Type 0 where
  pub lookup_env : Bytes → Option Bytes
  pub read_file : Bytes → Option Bytes
  pub user_home_dir : Option Bytes
  pub read_password : Option Bytes
  pub clean : Bytes → Bytes

or_empty : Option Bytes → Bytes
or_empty none = []
or_empty (some val) = val

-- os.Getenv
unfoldable pub getenv : Process → Bytes → Bytes
unfolding or_empty
getenv process key = or_empty (process.lookup_env key)

-- `strings.TrimSpace(os.Getenv(key))`
unfoldable pub trimmed_env : Process → Bytes → Bytes
trimmed_env process key = trim_space (getenv process key)

pub data SignerError : Type 0 where
  bad_expected_address : SignerError
  zero_expected_address : SignerError
  bad_expected_chain : SignerError
  chain_mismatch : SignerError
  unsupported_mode : Bytes → SignerError
  bad_account : SignerError
  no_home : SignerError
  reading_keystore : SignerError
  reading_password : SignerError
  decrypting_keystore : SignerError
  no_private_key : SignerError
  no_raw_key : SignerError
  bad_raw_key : SignerError
  address_mismatch : Address → SignerError

-- Config; its chain is never nil here
pub record Config : Type 0 where
  pub mode : Bytes
  pub keystore_account : Bytes
  pub keystore_path : Bytes
  pub raw_private_key : Bytes
  pub expected_address : Address
  pub expected_chain_id : ℤ

lower_byte : ℕ → ℕ
lower_byte c = if leb b'A' c && leb c b'Z' then c + 32 else c

-- the text from a byte on, where the first bytes may belong to a character that is done
lower_from : ℕ → Bytes → Bytes
unfolding lower_byte
lower_from n [] = []
lower_from (suc n) (c ∷ s) = lower_from n s
lower_from zero (c ∷ s) = elim (has_prefix (c ∷ s) (226 ∷ 132 ∷ 170 ∷ [])) [
  | true ↦ b'k' ∷ lower_from 2 s
  | false ↦ lower_byte c ∷ lower_from 0 s
]

-- `strings.ToLower` in ASCII, with the Kelvin sign, whose lower case is k
unfoldable pub to_lower : Bytes → Bytes
unfolding lower_from
to_lower = lower_from 0

unfoldable pub or_default : Bytes → Bytes → Bytes
or_default default s = if is_empty s then default else s

module _ {K : Type 0} (keys : Keys K) (process : Process) where
  -- ConfigFromEnv
  unfoldable pub config_from_env : Result SignerError Config
  config_from_env = do
    let expected = trimmed_env process (codes "EXPECTED_SIGNER_ADDRESS")
    fail_if (not (keys.is_hex_address expected)) bad_expected_address
    fail_if (keys.hex_to_address expected == 0) zero_expected_address
    chain ←
        or_err bad_expected_chain
          (set_string (or_default (codes "114") (trimmed_env process (codes "EXPECTED_CHAIN_ID"))))
    fail_if (is_nonpos chain) bad_expected_chain
    ok (record {
      mode =
          or_default (codes "keystore")
            (to_lower (trim_space (getenv process (codes "SIGNER_MODE"))));
      keystore_account = trimmed_env process (codes "DEPLOYMENT_KEYSTORE_ACCOUNT");
      keystore_path = trimmed_env process (codes "DEPLOYMENT_KEYSTORE_PATH");
      raw_private_key = trimmed_env process (codes "DEPLOYMENT_PRIVATE_KEY");
      expected_address = keys.hex_to_address expected;
      expected_chain_id = chain;
    })

-- the secrets that are overwritten with zeros
pub data Secret (K : Type 0) : Type 0 where
  password : Bytes → Secret K
  private_key : K → Secret K

-- the part of a path after the last slash
after_slash : Bytes → Bytes → Bytes
after_slash kept [] = kept
after_slash kept (c ∷ s) = if c == b'/' then after_slash [] s else after_slash (kept ++ c ∷ []) s

all_slashes : Bytes → Bool
all_slashes [] = true
all_slashes (c ∷ s) = c == b'/' && all_slashes s

-- the path without the slashes at its end
strip_slashes : Bytes → Bytes
unfolding all_slashes
strip_slashes [] = []
strip_slashes (c ∷ s) = let more = strip_slashes s in if all_slashes (c ∷ s) then [] else c ∷ more

base_of : Bytes → Bytes → Bytes
unfolding after_slash
base_of path [] = if is_empty path then codes "." else codes "/"
base_of path (c ∷ s) = after_slash [] (c ∷ s)

-- `filepath.Base`
unfoldable pub base : Bytes → Bytes
unfolding base_of strip_slashes
base path = base_of path (strip_slashes path)

-- ResolveKeystorePath
unfoldable pub resolve_keystore_path : Process → Bytes → Bytes → Result SignerError Bytes
resolve_keystore_path process explicit_path account =
    if not (is_empty explicit_path) then ok (process.clean explicit_path) else do
      fail_if (is_empty account || not (bytes_eq (base account) account)) bad_account
      home ← or_err no_home process.user_home_dir
      ok (process.clean (home ++ (codes "/.foundry/keystores/" ++ account)))

drop_prefix : Bytes → Bytes → Bytes
drop_prefix p s = if has_prefix s p then drop (length p) s else s

-- `cfg.ExpectedChainID.Cmp(actualChainID) == 0`, where the second may be nil
unfoldable pub same_chain : ℤ → Option ℤ → Bool
same_chain expected none = false
same_chain (pos n) (some (pos m)) = n == m
same_chain (negsuc n) (some (negsuc m)) = n == m
same_chain _ _ = false

module _ {K : Type 0} (keys : Keys K) (process : Process) where
  present : Option (Option K) → Result SignerError K
  present none = err decrypting_keystore
  present (some none) = err no_private_key
  present (some (some key)) = ok key

  -- from the encrypted key on: the password is cleared on return
  unfoldable pub with_password : Bytes → Option Bytes → Result SignerError K × List (Secret K)
  unfolding present
  with_password encrypted none = (err reading_password, [])
  with_password encrypted (some typed) =
      (present (keys.decrypt_key encrypted typed), password typed ∷ [])

  unfoldable pub with_file : Option Bytes → Result SignerError K × List (Secret K)
  with_file none = (err reading_keystore, [])
  with_file (some encrypted) = with_password encrypted process.read_password

  unfoldable pub with_path : Result SignerError Bytes → Result SignerError K × List (Secret K)
  with_path (err e) = (err e, [])
  with_path (ok path) = with_file (process.read_file path)

  -- loadKeystore, with the password that it clears when it returns
  unfoldable pub load_keystore : Config → Result SignerError K × List (Secret K)
  unfolding with_path
  load_keystore cfg =
      with_path (resolve_keystore_path process cfg.keystore_path cfg.keystore_account)

  -- loadRaw
  unfoldable pub load_raw : Bytes → Result SignerError K
  unfolding drop_prefix
  load_raw raw = do
    let digits = drop_prefix (codes "0X") (drop_prefix (codes "0x") (trim_space raw))
    fail_if (is_empty digits) no_raw_key
    or_err bad_raw_key (keys.hex_to_ecdsa digits)

  -- the switch on whether the mode is `keystore` and whether it is `raw`
  unfoldable pub switch_mode : Config → Bool → Bool → Result SignerError K × List (Secret K)
  switch_mode cfg true _ = load_keystore cfg
  switch_mode cfg false true = (load_raw cfg.raw_private_key, [])
  switch_mode cfg false false = (err (unsupported_mode cfg.mode), [])

  unfoldable pub load_key : Config → Result SignerError K × List (Secret K)
  unfolding switch_mode
  load_key cfg =
      let mode = to_lower (trim_space cfg.mode) in
      switch_mode cfg (bytes_eq mode (codes "keystore")) (bytes_eq mode (codes "raw"))

  -- the comparison of the key's address, which clears a key that is refused
  unfoldable pub check_address :
      Config
      → Result SignerError K × List (Secret K)
      → Result SignerError (K × Address) × List (Secret K)
  check_address cfg (err e, cleared) = (err e, cleared)
  check_address cfg (ok key, cleared) =
      let address = keys.pubkey_to_address key in
      if cfg.expected_address == 0 || not (address == cfg.expected_address)
      then (err (address_mismatch address), cleared ++ private_key key ∷ [])
      else (ok (key, address), cleared)

  -- Load, with the secrets that it clears; the chain's ID may be nil
  unfoldable pub load : Config → Option ℤ → Result SignerError (K × Address) × List (Secret K)
  unfolding same_chain
  load cfg actual_chain_id =
      if not (same_chain cfg.expected_chain_id actual_chain_id)
      then (err chain_mismatch, [])
      else check_address cfg (load_key cfg)

  -- LoadFromEnvironment
  unfoldable pub load_from_environment :
      Option ℤ → Result SignerError (K × Address) × List (Secret K)
  load_from_environment actual_chain_id = elim (config_from_env keys process) [
    | err e ↦ (err e, [])
    | ok cfg ↦ load cfg actual_chain_id
  ]
