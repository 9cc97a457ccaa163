-- ===== src/Validate/Addresses.antt =====
-- The checks of the addresses: AddressNotZero and AddressHasCode in
-- packages/fcc-extension/tools/pkg/validate/validate.go, and the first two loops of
-- RegisterDeployChecks in packages/fcc-extension/tools/pkg/validate/checks.go.
use averlock.Prelude.{
  Bool, false, ◌||◌, Option, none, some, List, [], ◌∷◌, Bytes, codes, bytes_eq, is_empty, ◌==◌,
  if◌then◌else◌, Result, ok, err,
}
use averlock.Tools.Report.{CheckResult, pass, fail}
use averlock.Validate.{Address, AddressText, Client, text, dash, check_result, for_each}

-- `zeroAddrs[label]`
unfoldable pub has_label : Bytes → List Bytes → Bool
has_label label [] = false
has_label label (zero ∷ more) = bytes_eq label zero || has_label label more

module _ (addr : AddressText) where
  -- AddressNotZero, with its error's text
  unfoldable pub address_not_zero : Address → Bytes → Result Bytes (Unit {0})
  address_not_zero a label =
      if a == 0
      then err (
          text (
            label
            ∷ codes " is the zero address ("
            ∷ addr.hex a
            ∷ codes ") in the addresses file"
            ∷ []))
      else ok tt

  code_found : Address → Bytes → Result Bytes Bytes → Result Bytes (Unit {0})
  code_found a label (err e) = err (text (codes "cannot check " ∷ label ∷ codes ": " ∷ e ∷ []))
  code_found a label (ok code) =
      if is_empty code
      then err (
          text (
            label
            ∷ codes " at "
            ∷ addr.hex a
            ∷ codes " has no deployed code. "
            ∷ codes
                "This address will be set as immutable in the contract constructor and cannot be changed. "
            ∷ codes "Check your deployed-addresses.json file "
            ∷ dash
            ∷ codes " are you on the right network?"
            ∷ []))
      else ok tt

  -- AddressHasCode
  unfoldable pub address_has_code : Option Client → Address → Bytes → Result Bytes (Unit {0})
  unfolding code_found
  address_has_code none a label =
      err (text (codes "cannot check " ∷ label ∷ codes ": no chain client connected" ∷ []))
  address_has_code (some client) a label = code_found a label (client.code_at a)

  not_zero_result : Address → Bytes → Result Bytes (Unit {0}) → CheckResult
  not_zero_result a label (err e) =
      check_result (codes "deploy") (codes "D3") (text (label ∷ codes " address not zero" ∷ []))
        fail e (codes "Re-run the deploy script or check deployed-addresses.json")
  not_zero_result a label (ok _) =
      check_result (codes "deploy") (codes "D3") (text (label ∷ codes " address not zero" ∷ []))
        pass (addr.hex a) []

  -- D3
  unfoldable pub d3 : Bytes × Address → CheckResult
  unfolding address_not_zero not_zero_result
  d3 (label, a) = not_zero_result a label (address_not_zero a label)

  has_code_result : Address → Bytes → Result Bytes (Unit {0}) → CheckResult
  has_code_result a label (err e) =
      check_result (codes "deploy") (codes "D1") (text (label ∷ codes " has deployed code" ∷ []))
        fail e (codes "Deploy contracts or check CHAIN_URL / deployed-addresses.json")
  has_code_result a label (ok _) =
      check_result (codes "deploy") (codes "D1") (text (label ∷ codes " has deployed code" ∷ []))
        pass (text (codes "code found at " ∷ addr.hex a ∷ [])) []

  -- D1/D2, of an address that is not zero
  unfoldable pub d1 : Option Client → Bytes × Address → CheckResult
  unfolding address_has_code has_code_result
  d1 client (label, a) = has_code_result a label (address_has_code client a label)

  -- the loop of D3
  unfoldable pub each_d3 : List (Bytes × Address) → List CheckResult
  unfolding for_each
  each_d3 = for_each (λ entry. d3 entry ∷ [])

  -- `zeroAddrs`, as the first loop leaves it: the labels of the addresses that are refused
  unfoldable pub zero_addrs : List (Bytes × Address) → List Bytes
  unfolding address_not_zero
  zero_addrs [] = []
  zero_addrs ((label, a) ∷ entries) =
      let more = zero_addrs entries in
      elim (address_not_zero a label) [ err e ↦ label ∷ more | ok _ ↦ more ]

  -- a round of D1/D2, which passes over the labels in `zero`
  unfoldable pub round_d1 : List Bytes → Option Client → Bytes × Address → List CheckResult
  unfolding has_label
  round_d1 zero client entry = if has_label entry.0 zero then [] else d1 client entry ∷ []

  -- the loop of D1/D2
  unfoldable pub each_d1 : List Bytes → Option Client → List (Bytes × Address) → List CheckResult
  unfolding for_each
  each_d1 zero client = for_each (round_d1 zero client)
