-- ===== src/Live/Machines.antt =====
-- The TEE machines of an extension: the checks with which main begins and retireStaleMachines, in
-- packages/fcc-extension/tools/cmd/run-test/main.go.
use averlock.Prelude.{
  ℕ, ◌%◌, ◌^◌, Bool, true, false, ◌||◌, ◌&&◌, not, Option, none, some, List, [], ◌∷◌, Bytes, codes,
  bytes_eq, is_empty, leb, ◌-◌, ◌+◌, ◌*◌, ◌==◌, if◌then◌else◌, Result, ok, err, or_err, fail_if,
  ◌>>=◌, ◌>>◌, and_then, drop,
}
use averlock.Validate.{Address, has_prefix}
use averlock.Live.{
  HexText, LiveError, bad_arguments, machine_refused, query_failed, retirement_refused,
  retirement_failed, still_ambiguous, chain_id,
}

-- the chain with its MachineManager, in a state `V`: its queries may fail, a transaction may not be
-- sent, and a receipt may be missing
pub record Chain (V : Type 0) : Type 0 where
  pub get_active_tee_machines : V → ℕ → Option (List Address)
  pub get_tee_machine_owner : V → Address → Option Address
  pub get_extension_id : V → Address → Option ℕ
  pub get_tee_machine_status : V → Address → Option ℕ
  pub get_tee_machine : V → Address → Option (Address × Bytes)
  pub transactor : Bool
  pub ban : Address → V → Bool × V
  pub check_tx : V → Option ℕ

-- an answer that is there and equal
unfoldable pub is_answer : ℕ → Option ℕ → Bool
is_answer expected none = false
is_answer expected (some n) = n == expected

module _ {V : Type 0} (chain : Chain V) (owner expected_tee : Address) (extension_id : ℕ) where
  -- whether the machine is the owner's, of the extension and in production
  unfoldable pub verified : Address → V → Bool
  unfolding is_answer
  verified tee v =
      is_answer owner (chain.get_tee_machine_owner v tee)
      && (is_answer extension_id (chain.get_extension_id v tee)
          && is_answer 2 (chain.get_tee_machine_status v tee))

  unfoldable pub after_ban : Bool × V → Result LiveError (Unit {0}) × V
  unfolding is_answer
  after_ban (false, v) = (err retirement_failed, v)
  after_ban (true, v) =
      if is_answer 1 (chain.check_tx v) then (ok tt, v) else (err retirement_failed, v)

  -- one round of the loop
  unfoldable pub retire_one : Address → V → Result LiveError (Unit {0}) × V
  unfolding after_ban
  retire_one tee v =
      if tee == expected_tee
      then (ok tt, v)
      else if not (verified tee v)
      then (err retirement_refused, v)
      else if not chain.transactor
      then (err retirement_failed, v)
      else after_ban (chain.ban tee v)

  unfoldable pub retire_all : List Address → V → Result LiveError (Unit {0}) × V
  retire_all [] v = (ok tt, v)
  retire_all (tee ∷ tees) v = and_then (retire_one tee v) (λ _ v'. retire_all tees v')

  -- `len(after.TeeIds) != 1 || after.TeeIds[0] != expectedTEE`
  unfoldable pub only_expected : Option (List Address) → Bool
  only_expected (some (tee ∷ [])) = tee == expected_tee
  only_expected _ = false

  unfoldable pub confirm_only : V → Result LiveError (Unit {0}) × V
  unfolding only_expected
  confirm_only v =
      if only_expected (chain.get_active_tee_machines v extension_id)
      then (ok tt, v)
      else (err still_ambiguous, v)

  unfoldable pub retire_listed : Option (List Address) → V → Result LiveError (Unit {0}) × V
  unfolding confirm_only
  retire_listed none v = (err query_failed, v)
  retire_listed (some tees) v = and_then (retire_all tees v) (λ _ v'. confirm_only v')

  -- retireStaleMachines
  unfoldable pub retire_stale_machines : V → Result LiveError (Unit {0}) × V
  unfolding retire_listed
  retire_stale_machines v = retire_listed (chain.get_active_tee_machines v extension_id) v

-- `strings.TrimRight(url, "/")`
unfoldable pub trim_right_slash : Bytes → Bytes
trim_right_slash [] = []
trim_right_slash (c ∷ s) =
    let more = trim_right_slash s in if c == b'/' && is_empty more then [] else c ∷ more

hex_digit : ℕ → Option ℕ
hex_digit c =
    if leb b'0' c && leb c b'9'
    then some (c - b'0')
    else if leb b'a' c && leb c b'f'
    then some (c - 87)
    else if leb b'A' c && leb c b'F'
    then some (c - 55)
    else none

hex_from : ℕ → Bytes → Option ℕ
unfolding hex_digit
hex_from n [] = some n
hex_from n (c ∷ s) = elim (hex_digit c) [ none ↦ none | some d ↦ hex_from (n * 16 + d) s ]

signed_hex : Bytes → Option ℕ
unfolding hex_from
signed_hex [] = none
signed_hex (c ∷ s) =
    if c == b'+' then (if is_empty s then none else hex_from 0 s) else hex_from 0 (c ∷ s)

-- `new(big.Int).SetString(strings.TrimPrefix(text, "0x"), 16)`, if the number is positive
unfoldable pub positive_hex : Bytes → Option ℕ
unfolding signed_hex
positive_hex text = signed_hex (if has_prefix text (codes "0x") then drop 2 text else text)

-- what the proxy's /info says: the chain, and the public key's address, if it parses
pub record TeeInfo : Type 0 where
  pub chain : ℕ
  pub derived_tee : Option Address

-- the arguments that are checked
pub record Target : Type 0 where
  pub sender : Bytes
  pub extension : Bytes
  pub tee : Bytes
  pub proxy_url : Bytes

is_machine : Address → Option (Address × Bytes) → Bool
is_machine tee none = false
is_machine tee (some (tee_id, url)) = tee_id == tee

same_url : Bytes → Option (Address × Bytes) → Bool
same_url proxy none = false
same_url proxy (some (tee_id, url)) = bytes_eq (trim_right_slash url) (trim_right_slash proxy)

-- the checks of main up to LIVE_TEE_VALIDATED, which give the TEE, the extension and the sender;
-- `tx_chain` is the chain of DefaultSupport
unfoldable pub validate_live_tee :
    {V : Type 0}
    → HexText
    → Chain V
    → V
    → Target
    → Option TeeInfo
    → Option ℕ
    → Result LiveError (Address × ℕ × Address)
unfolding is_answer is_machine same_url
validate_live_tee hex chain v target info tx_chain = do
  fail_if (not (hex.is_hex_address target.sender)) bad_arguments
  extension_id ← or_err bad_arguments (positive_hex target.extension)
  fail_if (extension_id == 0) bad_arguments
  tee_info ← or_err query_failed info
  fail_if (not (tee_info.chain == chain_id)) machine_refused
  tee ← or_err machine_refused tee_info.derived_tee
  fail_if
      (not (is_empty target.tee)
        && (not (hex.is_hex_address target.tee) || not (hex.hex_to_address target.tee == tee)))
      machine_refused
  support_chain ← or_err query_failed tx_chain
  fail_if (not (support_chain % 2 ^ 64 == chain_id)) machine_refused
  fail_if (not (is_machine tee (chain.get_tee_machine v tee))) machine_refused
  fail_if (not (is_answer 2 (chain.get_tee_machine_status v tee))) machine_refused
  fail_if (not (is_answer extension_id (chain.get_extension_id v tee))) machine_refused
  fail_if (not (same_url target.proxy_url (chain.get_tee_machine v tee))) machine_refused
  ok (tee, extension_id, hex.hex_to_address target.sender)
