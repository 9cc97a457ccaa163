-- ===== src/Validate.antt =====
-- What the checks of a deployment read and how they write their results: the shared parts of
-- packages/fcc-extension/tools/pkg/validate/checks.go and validate.go. go-ethereum, the contracts'
-- bindings, the network and the files are parameters.
pub mod EnvFile
pub mod Addresses
pub mod Deploy
pub mod Register
pub mod Services
pub mod Version
pub mod Machine
pub mod Order
pub mod OnePass
pub mod Verify
mod Tests
use averlock.Prelude.{
  ℕ, ◌+◌, ◌-◌, ◌/◌, ◌%◌, Bool, true, false, ◌||◌, ◌&&◌, Option, none, some, List, [], ◌∷◌, ◌++◌,
  Bytes, codes, bytes_eq, is_empty, length, leb, ltb, ◌==◌, if◌then◌else◌, Result, ok, err,
}
use averlock.Tools.Report.{Status, CheckResult, Report, add, pass, warn, fail, skip}

-- common.Address, 20 bytes as a number
abbrev pub Address : Type 0
Address = ℕ

-- HexToAddress and Address.Hex
pub record AddressText : Type 0 where
  pub hex_to_address : Bytes → Address
  pub hex : Address → Bytes

-- the environment's variables, the files and the network: `open_file` is what can be read of a file
-- that opens, `http_get` the status code of an answer, `dial` whether a port takes a connection
pub record Site : Type 0 where
  pub getenv : Bytes → Bytes
  pub open_file : Bytes → Option Bytes
  pub not_exist : Bytes → Bool
  pub http_get : Bytes → Option ℕ
  pub dial : Bytes → Bool

-- ethclient.Client, by the answers to its queries
pub record Client : Type 0 where
  pub chain_id : Result Bytes ℕ
  pub code_at : Address → Result Bytes Bytes
  pub balance_at : Address → Result Bytes ℕ

-- extensionmanager.ExtensionManager
pub record ExtensionManager : Type 0 where
  pub next_public_extension_id : Result Bytes ℕ
  pub get_tee_extension_instructions_sender : ℕ → Result Bytes Address
  pub is_key_type_supported : ℕ → Bytes → Result Bytes Bool

-- ownerallowlist.OwnerAllowlist
pub record OwnerAllowlist : Type 0 where
  pub is_allowed_tee_machine_owner : ℕ → Address → Result Bytes Bool

-- the parts of a message, one after the other
unfoldable pub text : List Bytes → Bytes
text [] = []
text (part ∷ parts) = part ++ text parts

-- an em dash in UTF-8
abbrev pub dash : Bytes
dash = 226 ∷ 128 ∷ 148 ∷ []

hex_digit : ℕ → ℕ
hex_digit n = if ltb n 10 then b'0' + n else 87 + n

-- a byte between the quotes of `%q`; what is not ASCII stands for itself
quote_byte : ℕ → Bytes
unfolding hex_digit
quote_byte c =
    if c == b'"' || c == b'\\'
    then b'\\' ∷ c ∷ []
    else if c == 7
    then codes "\\a"
    else if c == 8
    then codes "\\b"
    else if c == 9
    then codes "\\t"
    else if c == 10
    then codes "\\n"
    else if c == 11
    then codes "\\v"
    else if c == 12
    then codes "\\f"
    else if c == 13
    then codes "\\r"
    else if ltb c 32 || c == 127
    then codes "\\x" ++ hex_digit (c / 16) ∷ hex_digit (c % 16) ∷ []
    else c ∷ []

quote_bytes : Bytes → Bytes
unfolding quote_byte
quote_bytes [] = []
quote_bytes (c ∷ s) = quote_byte c ++ quote_bytes s

-- `%q`
unfoldable pub quote : Bytes → Bytes
unfolding quote_bytes
quote s = b'"' ∷ quote_bytes s ++ b'"' ∷ []

-- `strings.HasPrefix`
unfoldable pub has_prefix : Bytes → Bytes → Bool
has_prefix s [] = true
has_prefix [] (p ∷ ps) = false
has_prefix (c ∷ s) (p ∷ ps) = c == p && has_prefix s ps

is_hex_digit : ℕ → Bool
is_hex_digit c =
    (leb b'0' c && leb c b'9') || ((leb b'a' c && leb c b'f') || (leb b'A' c && leb c b'F'))

all_hex : Bytes → Bool
unfolding is_hex_digit
all_hex [] = true
all_hex (c ∷ s) = is_hex_digit c && all_hex s

-- `^0x[0-9a-fA-F]{n}$`
unfoldable pub hex_regex : ℕ → Bytes → Bool
unfolding all_hex
hex_regex n (a ∷ b ∷ s) = a == b'0' && (b == b'x' && (length s == n && all_hex s))
hex_regex n _ = false

-- addressRegex
unfoldable pub address_regex : Bytes → Bool
unfolding hex_regex
address_regex = hex_regex 40

-- extensionIDRegex
unfoldable pub extension_id_regex : Bytes → Bool
unfolding hex_regex
extension_id_regex = hex_regex 64

lower : ℕ → ℕ
lower c = if leb b'A' c && leb c b'Z' then c + 32 else c

-- what follows a character that folds to the lower-case letter: besides the two cases, the Kelvin
-- sign for k and the long s for s
after_letter : ℕ → Bytes → Option Bytes
unfolding lower
after_letter e [] = none
after_letter e (c ∷ s) =
    if lower c == e
    then some s
    else if e == b'k' && has_prefix (c ∷ s) (226 ∷ 132 ∷ 170 ∷ [])
    then drop_two s
    else if e == b's' && has_prefix (c ∷ s) (197 ∷ 191 ∷ [])
    then drop_one s
    else none
  where
    drop_one : Bytes → Option Bytes
    drop_one [] = none
    drop_one (_ ∷ r) = some r

    drop_two : Bytes → Option Bytes
    drop_two [] = none
    drop_two (_ ∷ r) = drop_one r

-- `strings.EqualFold` with a text in lower case
unfoldable pub equal_fold : Bytes → Bytes → Bool
unfolding after_letter
equal_fold [] s = is_empty s
equal_fold (e ∷ es) s = elim (after_letter e s) [ none ↦ false | some rest ↦ equal_fold es rest ]

-- `err == nil && resp.StatusCode == http.StatusOK`
unfoldable pub is_reachable : Option ℕ → Bool
is_reachable none = false
is_reachable (some status) = status == 200

-- `httpClient.Get(proxyURL + "/info")`
unfoldable pub reachable : Site → Bytes → Bool
unfolding is_reachable
reachable site url = is_reachable (site.http_get (url ++ codes "/info"))

-- a CheckResult literal
abbrev pub check_result : Bytes → Bytes → Bytes → Status → Bytes → Bytes → CheckResult
check_result step id name status message fix = record {
  step = step;
  id = id;
  name = name;
  status = status;
  message = message;
  fix = fix;
}

-- the results of a loop, in the order of its rounds
unfoldable pub for_each : {A : Type 0} → (A → List CheckResult) → List A → List CheckResult
for_each f [] = []
for_each f (x ∷ xs) = f x ++ for_each f xs

-- `r.Add(res)` for each result in turn
unfoldable pub add_all : List CheckResult → Report → Report
add_all [] report = report
add_all (res ∷ results) report = add_all results (add res report)
