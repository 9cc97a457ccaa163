-- ===== src/Validate/OnePass.antt =====
-- The two loops over the addresses in RegisterDeployChecks of
-- packages/fcc-extension/tools/pkg/validate/checks.go, beside one pass over them.
use averlock.Prelude.{
  ℕ, ◌≡◌, refl, sym, ◌∙◌, ap, Bool, true, false, ◌||◌, not, ◌==◌, if◌then◌else◌, Option, none, some,
  List, [], ◌∷◌, ◌++◌, Bytes, bytes_eq, bytes_eq→eq, bytes_eq_refl, codes, is_empty, arith, ok, err,
  Bool-cases, Result-cases, inl, inr,
}
use mathlib.Core.Logic.{∥∥₁_elim, ∥∥₁_prop}
use mathlib.Core.List.{Perm, Permᴰ, append_assoc}
use mathlib.Core.List.Perm
use averlock.Tools.Report.{CheckResult, Report, pass, fail}
use averlock.Validate.{Address, AddressText, Site, Client, for_each, text}
use averlock.Validate.Addresses.{
  has_label, d3, d1, zero_addrs, round_d1, each_d3, each_d1, address_not_zero, address_has_code,
}
use averlock.Validate.Deploy.{after_loops, deploy_results, register_deploy_checks}
use averlock.Validate.Order.{add_all_lem, swap_parts, register_deploy_checks-Perm}

-- What a result says, without its message and fix: the check, its name and its status.
pub record Summary : Type 0 where
  pub id : Bytes
  pub name : Bytes
  pub status : ℕ

abbrev pub summaries : List CheckResult → List Summary
summaries [] = []
summaries (r ∷ rs) = record { id = r.id; name = r.name; status = r.status } ∷ summaries rs

-- The node answers with code for the address.
abbrev pub code_there : Option Client → Address → Bool
code_there none a = false
code_there (some client) a = elim (client.code_at a) [
  | err e ↦ false
  | ok code ↦ not (is_empty code)
]

-- What is to be said of one address: of the zero address that it is zero, and of another one that it is
-- not, and whether there is code.
abbrev pub expected_of : Option Client → Bytes × Address → List Summary
expected_of client (label, a) =
    let named : Bytes → Bytes → ℕ → Summary =
      λ id about status. record { id = id; name = text (label ∷ about ∷ []); status = status } in
    if a == 0
    then named (codes "D3") (codes " address not zero") fail ∷ []
    else named (codes "D3") (codes " address not zero") pass
      ∷ named (codes "D1") (codes " has deployed code") (if code_there client a then pass else fail)
      ∷ []

abbrev pub one_pass : Option Client → List (Bytes × Address) → List Summary
one_pass client [] = []
one_pass client (entry ∷ entries) = expected_of client entry ++ one_pass client entries

abbrev pub has_entry : Bytes → List (Bytes × Address) → Bool
has_entry label [] = false
has_entry label ((other, a) ∷ entries) = bytes_eq label other || has_entry label entries

-- The keys of a map are distinct.
abbrev pub Distinct : List (Bytes × Address) → Type 0
Distinct [] = Unit
Distinct ((label, a) ∷ entries) = (has_entry label entries ≡ false) × Distinct entries

summaries-append : (xs ys : List CheckResult) → summaries (xs ++ ys) ≡ summaries xs ++ summaries ys
summaries-append [] ys = refl
summaries-append (x ∷ xs) ys =
    ap (λ s. record { id = x.id; name = x.name; status = x.status } ∷ s) (summaries-append xs ys)

summaries-PermD : {xs ys : List CheckResult} → Permᴰ xs ys → Perm (summaries xs) (summaries ys)
summaries-PermD Permᴰ.nil = Perm.refl []
summaries-PermD (Permᴰ.cons e d) = rw e (Perm.cons _ (summaries-PermD d))
summaries-PermD (Permᴰ.swap e₁ e₂) = rw (e₁, e₂) (Perm.swap _ _ _)
summaries-PermD (Permᴰ.trans d₁ d₂) = Perm.trans (summaries-PermD d₁) (summaries-PermD d₂)

summaries-Perm : {xs ys : List CheckResult} → Perm xs ys → Perm (summaries xs) (summaries ys)
summaries-Perm p = ∥∥₁_elim p ∥∥₁_prop summaries-PermD

bytes_eq-sym : (x y : Bytes) → bytes_eq x y ≡ bytes_eq y x
bytes_eq-sym x y = elim (Bool-cases (bytes_eq x y)) [
  | inl same ↦ let e = bytes_eq→eq x y same in rw e refl
  | inr other ↦ elim (Bool-cases (bytes_eq y x)) [
    | inl same ↦ let e = bytes_eq→eq y x same in rw e refl
    | inr also ↦ other ∙ sym also
  ]
]

-- Each label is in `zero` exactly if its address is zero.
AllMarked : List Bytes → List (Bytes × Address) → Type 0
AllMarked zero [] = Unit
AllMarked zero ((label, a) ∷ entries) = (has_label label zero ≡ (a == 0)) × AllMarked zero entries

AllMarked-cons :
    (own : Bytes) (zero : List Bytes) (entries : List (Bytes × Address))
    → has_entry own entries ≡ false
    → AllMarked zero entries
    → AllMarked (own ∷ zero) entries
unfolding AllMarked has_label
AllMarked-cons own zero [] apart marked = tt
AllMarked-cons own zero ((label, a) ∷ entries) apart marked = (
  ground (arith, bytes_eq-sym own label, apart, marked.0),
  AllMarked-cons own zero entries (ground (arith, apart)) marked.1,
)

module _ (addr : AddressText) where
  unmarked :
      (label : Bytes) (entries : List (Bytes × Address))
      → has_entry label entries ≡ false
      → has_label label (zero_addrs addr entries) ≡ false
  unfolding has_label zero_addrs address_not_zero
  unmarked label [] apart = refl
  unmarked label ((other, a) ∷ entries) apart =
      ground (arith, apart, unmarked label entries (ground (arith, apart)))

  zero_addrs_zero :
      (label : Bytes) (a : Address) (entries : List (Bytes × Address))
      → (a == 0) ≡ true
      → zero_addrs addr ((label, a) ∷ entries) ≡ label ∷ zero_addrs addr entries
  unfolding zero_addrs address_not_zero
  zero_addrs_zero label a entries zero = ground (arith, zero)

  zero_addrs_nonzero :
      (label : Bytes) (a : Address) (entries : List (Bytes × Address))
      → (a == 0) ≡ false
      → zero_addrs addr ((label, a) ∷ entries) ≡ zero_addrs addr entries
  unfolding zero_addrs address_not_zero
  zero_addrs_nonzero label a entries nonzero = ground (arith, nonzero)

  AllMarked-entry :
      (zero : List Bytes) (label : Bytes) (a : Address) (entries : List (Bytes × Address))
      → has_label label zero ≡ (a == 0)
      → AllMarked zero entries
      → AllMarked zero ((label, a) ∷ entries)
  unfolding AllMarked
  AllMarked-entry zero label a entries here more = (here, more)

  first_label : (label : Bytes) (zero : List Bytes) → has_label label (label ∷ zero) ≡ true
  unfolding has_label
  first_label label zero = ground (arith, bytes_eq_refl label)

  zero_addrs-AllMarked :
      (entries : List (Bytes × Address))
      → Distinct entries
      → AllMarked (zero_addrs addr entries) entries
  zero_addrs-AllMarked [] apart = unfold AllMarked in tt
  zero_addrs-AllMarked ((label, a) ∷ entries) (own, rest) =
      let own_not = unmarked label entries own in
      let marked = zero_addrs-AllMarked entries rest in
      elim (Bool-cases (a == 0)) [
        | inl zero ↦ rw (zero_addrs_zero label a entries zero) (
            AllMarked-entry _ label a entries
              (first_label label (zero_addrs addr entries) ∙ sym zero)
              (AllMarked-cons label (zero_addrs addr entries) entries own marked))
        | inr nonzero ↦
            rw (zero_addrs_nonzero label a entries nonzero)
              (AllMarked-entry _ label a entries (own_not ∙ sym nonzero) marked)
      ]

  -- the results of the two loops for one entry
  entry_results : List Bytes → Option Client → Bytes × Address → List CheckResult
  entry_results zero client entry = d3 addr entry ∷ round_d1 addr zero client entry

  code_result :
      (client : Option Client) (label : Bytes) (a : Address)
      → summaries (d1 addr client (label, a) ∷ [])
        ≡ record {
          id = codes "D1";
          name = text (label ∷ codes " has deployed code" ∷ []);
          status = if code_there client a then pass else fail;
        }
          ∷ []
  unfolding d1 address_has_code
  code_result none label a = refl
  code_result (some client) label a = elim (Result-cases (client.code_at a)) [
    | inl (code, read) ↦ ground (arith, read)
    | inr (e, failed) ↦ ground (arith, failed)
  ]

  zero_result :
      (label : Bytes) (a : Address)
      → summaries (d3 addr (label, a) ∷ [])
        ≡ record {
          id = codes "D3";
          name = text (label ∷ codes " address not zero" ∷ []);
          status = if a == 0 then fail else pass;
        }
          ∷ []
  unfolding d3 address_not_zero
  zero_result label a = ground arith

  entry_results-expected_of :
      (zero : List Bytes) (client : Option Client) (label : Bytes) (a : Address)
      → has_label label zero ≡ (a == 0)
      → summaries (entry_results zero client (label, a)) ≡ expected_of client (label, a)
  unfolding entry_results round_d1
  entry_results-expected_of zero client label a marked =
      ground (arith, marked, zero_result label a, code_result client label a)

  -- The two loops, one behind the other, for entries that are marked as they should be.
  loops-one_pass :
      (zero : List Bytes) (client : Option Client) (entries : List (Bytes × Address))
      → AllMarked zero entries
      → Perm
          (summaries (each_d3 addr entries) ++ summaries (each_d1 addr zero client entries))
          (one_pass client entries)
  unfolding AllMarked each_d3 each_d1 for_each entry_results
  loops-one_pass zero client [] marked = Perm.refl []
  loops-one_pass zero client ((label, a) ∷ entries) marked =
      let rest = loops-one_pass zero client entries marked.1 in
      let here = entry_results-expected_of zero client label a marked.0 in
      let d1s = for_each (round_d1 addr zero client) entries in
      rw (summaries-append (round_d1 addr zero client (label, a)) d1s, sym here)
        (Perm.cons _ (
          Perm.trans
            (swap_parts (summaries (each_d3 addr entries))
              (summaries (round_d1 addr zero client (label, a))) (summaries d1s))
            (Perm.append_left (summaries (round_d1 addr zero client (label, a))) rest)))

  -- RegisterDeployChecks goes over the map of addresses twice, in orders that Go chooses anew, and its
  -- second loop passes over what the first one has marked. For a map (its keys are distinct) and
  -- whatever the orders, it adds to the report what one pass over the addresses says: that the address
  -- is zero, as a failure, or that it is not, as a pass, with a pass or a failure for the code there;
  -- and then the results of the other checks. It is stated of the ID, the
  -- name and the status of each result, up to the order of the results.
  pub register_deploy_checks-one_pass :
      (site : Site) (client : Option Client) (key : Option Address)
      (addresses first second : List (Bytes × Address)) (path : Bytes) (report : Report)
      → Distinct addresses
      → Perm first addresses
      → Perm second addresses
      → Perm (summaries (register_deploy_checks addr site client key first second path report)) (
          summaries report
          ++ (one_pass client addresses ++ summaries (after_loops addr site client key path)))
  unfolding register_deploy_checks deploy_results
  register_deploy_checks-one_pass site client key addresses first second path report apart p q =
      let others = after_loops addr site client key path in
      let d3s = each_d3 addr addresses in
      let d1s = each_d1 addr (zero_addrs addr addresses) client addresses in
      let ordered = summaries-Perm (
        register_deploy_checks-Perm addr site client key first second addresses addresses path
          report p q) in
      let loops =
        loops-one_pass (zero_addrs addr addresses) client addresses
          (zero_addrs-AllMarked addresses apart) in
      let parts : summaries
            (register_deploy_checks addr site client key addresses addresses path report)
          ≡ summaries report ++ ((summaries d3s ++ summaries d1s) ++ summaries others) =
        rw
          (
            add_all_lem (d3s ++ (d1s ++ others)) report,
            summaries-append report (d3s ++ (d1s ++ others)),
            summaries-append d3s (d1s ++ others),
            summaries-append d1s others,
            append_assoc (summaries d3s) (summaries d1s) (summaries others),
          )
          refl in
      Perm.trans ordered (
        rw parts (Perm.append_left (summaries report) (Perm.append_right (summaries others) loops)))
