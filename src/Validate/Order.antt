-- ===== src/Validate/Order.antt =====
-- The order of the results in a report: RegisterDeployChecks in
-- packages/fcc-extension/tools/pkg/validate/checks.go ranges over a map.
use averlock.Prelude.{
  ◌≡◌, refl, sym, ◌∙◌, ◌||◌, ◌&&◌, ◌==◌, bytes_eq, Option, List, [], ◌∷◌, ◌++◌, Bytes, arith,
}
use mathlib.Core.Logic.{∥∥₁_elim, ∥∥₁_prop}
use mathlib.Core.Bool.{Bool-set}
use mathlib.Core.List.{Perm, Permᴰ, perm_append_comm, append_assoc, append-nil}
use mathlib.Core.List.Perm
use averlock.Tools.Report.{CheckResult, Report, add, has_failures}
use averlock.Validate.{Address, AddressText, Site, Client, for_each, add_all}
use averlock.Validate.Addresses.{
  has_label, address_not_zero, d3, zero_addrs, round_d1, each_d3, each_d1,
}
use averlock.Validate.Deploy.{after_loops, deploy_results, register_deploy_checks}

pub add_all_lem :
    (results : List CheckResult) (report : Report) → add_all results report ≡ report ++ results
unfolding add_all
add_all_lem [] report = sym (append-nil report)
add_all_lem (res ∷ results) report =
    add_all_lem results (add res report) ∙ append_assoc report (res ∷ []) results

pub has_failures-append :
    (xs ys : Report) → has_failures (xs ++ ys) ≡ (has_failures xs || has_failures ys)
unfolding has_failures
has_failures-append [] ys = refl
has_failures-append (x ∷ xs) ys = ground (arith, has_failures-append xs ys)

has_failures-PermD : {xs ys : Report} → Permᴰ xs ys → has_failures xs ≡ has_failures ys
unfolding has_failures
has_failures-PermD Permᴰ.nil = refl
has_failures-PermD (Permᴰ.cons e d) = rw (e, has_failures-PermD d) refl
has_failures-PermD (Permᴰ.swap {a} {b} {a'} {b'} e₁ e₂) = rw (e₁, e₂) (ground arith)
has_failures-PermD (Permᴰ.trans d₁ d₂) = has_failures-PermD d₁ ∙ has_failures-PermD d₂

pub has_failures-Perm : {xs ys : Report} → Perm xs ys → has_failures xs ≡ has_failures ys
has_failures-Perm {xs} {ys} p =
    ∥∥₁_elim p (Bool-set (has_failures xs) (has_failures ys)) has_failures-PermD

-- two parts of a list change places
pub swap_parts : {A : Type 0} (xs ys zs : List A) → Perm (xs ++ (ys ++ zs)) (ys ++ (xs ++ zs))
swap_parts xs ys zs =
    rw (sym (append_assoc xs ys zs), sym (append_assoc ys xs zs))
      (Perm.append_right zs (perm_append_comm xs ys))

module _ {A : Type 0} (f : A → List CheckResult) where
  for_each-PermD : {xs ys : List A} → Permᴰ xs ys → Perm (for_each f xs) (for_each f ys)
  unfolding for_each
  for_each-PermD Permᴰ.nil = Perm.refl []
  for_each-PermD (Permᴰ.cons e d) = rw e (Perm.append_left _ (for_each-PermD d))
  for_each-PermD (Permᴰ.swap {a} {b} {a'} {b'} {l} e₁ e₂) =
      rw (e₁, e₂) (swap_parts (f b') (f a') (for_each f l))
  for_each-PermD (Permᴰ.trans d₁ d₂) = Perm.trans (for_each-PermD d₁) (for_each-PermD d₂)

  for_each-Perm : {xs ys : List A} → Perm xs ys → Perm (for_each f xs) (for_each f ys)
  for_each-Perm p = ∥∥₁_elim p ∥∥₁_prop for_each-PermD

module _ (addr : AddressText) where
  -- a label is refused as often as its entries are, so by some or by none, in every order
  has_label-cons :
      (label : Bytes) (entry : Bytes × Address) (entries : List (Bytes × Address))
      → has_label label (zero_addrs addr (entry ∷ entries))
        ≡ ((bytes_eq label entry.0 && entry.1 == 0) || has_label label (zero_addrs addr entries))
  unfolding has_label zero_addrs address_not_zero
  has_label-cons label (own, a) entries = ground arith

  has_label-PermD :
      (label : Bytes) {xs ys : List (Bytes × Address)}
      → Permᴰ xs ys
      → has_label label (zero_addrs addr xs) ≡ has_label label (zero_addrs addr ys)
  has_label-PermD label Permᴰ.nil = refl
  has_label-PermD label (Permᴰ.cons {a} {b} {l₁} {l₂} e d) =
      rw (e, has_label-cons label b l₁, has_label-cons label b l₂, has_label-PermD label d) refl
  has_label-PermD label (Permᴰ.swap {a} {b} {a'} {b'} {l} e₁ e₂) =
      rw (e₁, e₂)
        (ground (
          arith,
          has_label-cons label b' (a' ∷ l),
          has_label-cons label a' l,
          has_label-cons label a' (b' ∷ l),
          has_label-cons label b' l,
        ))
  has_label-PermD label (Permᴰ.trans d₁ d₂) = has_label-PermD label d₁ ∙ has_label-PermD label d₂

  has_label-Perm :
      (label : Bytes) {xs ys : List (Bytes × Address)}
      → Perm xs ys
      → has_label label (zero_addrs addr xs) ≡ has_label label (zero_addrs addr ys)
  has_label-Perm label p = ∥∥₁_elim p (Bool-set _ _) (has_label-PermD label)

  round_d1-same :
      (client : Option Client) (entry : Bytes × Address) (zero zero' : List Bytes)
      → has_label entry.0 zero ≡ has_label entry.0 zero'
      → round_d1 addr zero client entry ≡ round_d1 addr zero' client entry
  unfolding round_d1
  round_d1-same client entry zero zero' same = rw same refl

  each_d1-same :
      (client : Option Client) (zero zero' : List Bytes) (entries : List (Bytes × Address))
      → ((label : Bytes) → has_label label zero ≡ has_label label zero')
      → each_d1 addr zero client entries ≡ each_d1 addr zero' client entries
  unfolding each_d1 for_each
  each_d1-same client zero zero' [] same = refl
  each_d1-same client zero zero' (entry ∷ entries) same =
      rw
        (
          round_d1-same client entry zero zero' (same entry.0),
          each_d1-same client zero zero' entries same,
        )
        refl

-- Whatever the orders in which RegisterDeployChecks ranges over the map of addresses, its report has
-- the same results, each as often.
pub register_deploy_checks-Perm :
    (addr : AddressText) (site : Site) (client : Option Client) (key : Option Address)
    (first second first' second' : List (Bytes × Address)) (path : Bytes) (report : Report)
    → Perm first first'
    → Perm second second'
    → Perm
        (register_deploy_checks addr site client key first second path report)
        (register_deploy_checks addr site client key first' second' path report)
unfolding register_deploy_checks deploy_results each_d3
register_deploy_checks-Perm addr site client key first second first' second' path report p q =
    let zeros =
      each_d1-same addr client (zero_addrs addr first) (zero_addrs addr first') second
        (λ label. has_label-Perm addr label p) in
    let d1s : Perm (each_d1 addr (zero_addrs addr first) client second)
        (each_d1 addr (zero_addrs addr first') client second') =
      rw zeros
        (unfold each_d1 in for_each-Perm (round_d1 addr (zero_addrs addr first') client) q) in
    let same : Perm (deploy_results addr site client key first second path)
        (deploy_results addr site client key first' second' path) =
      Perm.append (for_each-Perm (λ entry. d3 addr entry ∷ []) p)
        (Perm.append_right (after_loops addr site client key path) d1s) in
    rw
      (
        add_all_lem (deploy_results addr site client key first second path) report,
        add_all_lem (deploy_results addr site client key first' second' path) report,
      )
      (Perm.append_left report same)
