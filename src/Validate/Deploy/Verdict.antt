-- ===== src/Validate/Deploy/Verdict.antt =====
-- When RegisterDeployChecks in packages/fcc-extension/tools/pkg/validate/checks.go reports a failure.
use averlock.Prelude.{
  ℕ, ◌≤◌, ◌≡◌, ◌≢◌, ◌↔◌, refl, false, ◌||◌, some, List, [], ◌∷◌, ◌++◌, ◌==◌, Bytes, is_empty, arith,
  Result, ok, err, Result-cases, inl, inr,
}
use mathlib.Core.List.{Perm}
use averlock.Tools.Report.{Report, fail, has_failures}
use averlock.Validate.{Address, AddressText, Site, Client, for_each}
use averlock.Validate.Addresses.{
  has_label, d3, d1, zero_addrs, round_d1, each_d3, each_d1, address_not_zero, address_has_code,
}
use averlock.Validate.Deploy.{
  d5_funds, d6, d7, after_loops, deploy_results, register_deploy_checks, key_has_funds,
  check_chain_id, check_deployer_key_source, min_deploy_balance,
}
use averlock.Validate.Order.{
  add_all_lem, has_failures-append, has_failures-Perm, register_deploy_checks-Perm,
}

-- the contract is there
abbrev pub IsDeployed : Client → Bytes × Address → Type 0
IsDeployed client (label, a) =
    (a ≢ 0) × ((code : Bytes) × (client.code_at a ≡ ok code) × (is_empty code ≡ false))

abbrev pub AllDeployed : Client → List (Bytes × Address) → Type 0
AllDeployed client [] = Unit
AllDeployed client (entry ∷ entries) = IsDeployed client entry × AllDeployed client entries

module _ (addr : AddressText) (client : Client) where
  d3-fails : (label : Bytes) (a : Address) → ((d3 addr (label, a)).status == fail) ≡ (a == 0)
  unfolding d3 address_not_zero
  d3-fails label a = ground arith

  round_d1-fails :
      (label : Bytes) (a : Address) (code : Result Bytes Bytes)
      → client.code_at a ≡ code
      → (has_failures (round_d1 addr [] (some client) (label, a)) ≡ false)
        ↔ ((c : Bytes) × (code ≡ ok c) × (is_empty c ≡ false))
  unfolding round_d1 has_label d1 address_has_code has_failures
  round_d1-fails label a (ok c) there =
      (λ passed. (c, refl, ground (arith, there)), λ h. ground (arith, there, h))
  round_d1-fails label a (err e) there =
      (λ passed. absurd (ground (arith, there)), λ h. absurd (cc (h.1)))

  -- The two loops report no failure exactly when every contract is there, if none is passed over.
  unskipped_pass :
      (entries : List (Bytes × Address))
      → ((has_failures (each_d3 addr entries)
            || has_failures (each_d1 addr [] (some client) entries))
          ≡ false)
        ↔ AllDeployed client entries
  unfolding each_d3 each_d1 for_each has_failures
  unskipped_pass [] = (λ h. tt, λ h. refl)
  unskipped_pass ((label, a) ∷ entries) =
      let rest = unskipped_pass entries in
      let own = round_d1-fails label a (client.code_at a) refl in
      let here = d3-fails label a in
      let more =
        has_failures-append (round_d1 addr [] (some client) (label, a))
          (for_each (round_d1 addr [] (some client)) entries) in
      (
        λ h.
            let nonzero : a ≢ 0 = ground (arith, here, h) in
            ((nonzero, own.0 (ground (arith, more, h))), rest.0 (ground (arith, more, h))),
        λ h. let q = own.1 h.0.1 in let r = rest.1 h.1 in ground (arith, here, more, q, r, h.0.0),
      )

  -- If no address is refused, none is passed over.
  zero_addrs-none :
      (entries : List (Bytes × Address))
      → has_failures (each_d3 addr entries) ≡ false
      → zero_addrs addr entries ≡ []
  unfolding each_d3 for_each has_failures zero_addrs address_not_zero
  zero_addrs-none [] h = refl
  zero_addrs-none ((label, a) ∷ entries) h =
      let here = d3-fails label a in
      ground (arith, here, h, zero_addrs-none entries (ground (arith, h)))

  loops_pass :
      (entries : List (Bytes × Address))
      → ((has_failures (each_d3 addr entries)
            || has_failures (each_d1 addr (zero_addrs addr entries) (some client) entries))
          ≡ false)
        ↔ AllDeployed client entries
  loops_pass entries =
      let none_passed = zero_addrs-none entries in
      (
        λ h.
            let clean : has_failures (each_d3 addr entries) ≡ false = ground (arith, h) in
            (unskipped_pass entries).0 (rw (none_passed clean) at h),
        λ h.
            let both = (unskipped_pass entries).1 h in
            let clean : has_failures (each_d3 addr entries) ≡ false = ground (arith, both) in
            rw (none_passed clean) both,
      )

  -- The balance is read, and it is enough.
  abbrev pub IsFunded : Address → Type 0
  IsFunded key = (w : ℕ) × (client.balance_at key ≡ ok w) × (min_deploy_balance ≤ w)

  funds_pass :
      (key : Address)
      → (has_failures (d5_funds addr (some client) (some key)) ≡ false) ↔ IsFunded key
  unfolding d5_funds key_has_funds has_failures
  funds_pass key = elim (Result-cases (client.balance_at key)) [
    | inl (w, read) ↦ (λ h. (w, read, ground (arith, h, read)), λ h. ground (arith, read, h))
    | inr (e, failed) ↦ (λ h. absurd (ground (arith, h, failed)), λ h. absurd (cc (failed, h.1)))
  ]

  chain_id_pass : (has_failures (d6 (some client)) ≡ false) ↔ ((id : ℕ) × (client.chain_id ≡ ok id))
  unfolding d6 check_chain_id has_failures
  chain_id_pass = elim (Result-cases client.chain_id) [
    | inl (id, read) ↦ (λ h. (id, read), λ h. ground (arith, read))
    | inr (e, failed) ↦ (λ h. absurd (ground (arith, h, failed)), λ h. absurd (cc (failed, h.1)))
  ]

  after_loops_pass :
      (site : Site) (key : Address) (path : Bytes)
      → (has_failures (after_loops addr site (some client) (some key) path) ≡ false) ↔ (
          IsFunded key
          × ((id : ℕ) × (client.chain_id ≡ ok id))
          × (has_failures (d7 site path) ≡ false))
  unfolding after_loops check_deployer_key_source has_failures
  after_loops_pass site key path =
      let funds = d5_funds addr (some client) (some key) in
      let split = has_failures-append funds (d6 (some client) ++ d7 site path) in
      let split' = has_failures-append (d6 (some client)) (d7 site path) in
      (
        λ h. (
          (funds_pass key).0 (ground (arith, h, split)),
          chain_id_pass.0 (ground (arith, h, split, split')),
          ground (arith, h, split, split'),
        ),
        λ h.
            let p = (funds_pass key).1 h.0 in
            let q = chain_id_pass.1 h.1 in ground (arith, h.2, split, split', p, q),
      )

-- Whatever the orders in which it ranges over the map of addresses, RegisterDeployChecks with a client
-- and a key leaves a report without failures, if it had none, exactly when no address is zero, the chain
-- answers with code for each of them, with a balance of at least MinDeployBalance for the key and with
-- its id, and the checks of extension.env, where a path is given, report no failure.
pub register_deploy_checks_iff :
    (addr : AddressText) (site : Site) (client : Client) (key : Address)
    (addresses first second : List (Bytes × Address)) (path : Bytes) (report : Report)
    → Perm first addresses
    → Perm second addresses
    → has_failures report ≡ false
    → (has_failures
          (register_deploy_checks addr site (some client) (some key) first second path report)
        ≡ false)
      ↔ (AllDeployed client addresses
          × IsFunded addr client key
          × ((id : ℕ) × (client.chain_id ≡ ok id))
          × (has_failures (d7 site path) ≡ false))
unfolding register_deploy_checks deploy_results
register_deploy_checks_iff addr site client key addresses first second path report p q clean =
    let same = has_failures-Perm (
      register_deploy_checks-Perm addr site (some client) (some key) first second addresses
        addresses path report p q) in
    let results = deploy_results addr site (some client) (some key) addresses addresses path in
    let d3s = each_d3 addr addresses in
    let d1s = each_d1 addr (zero_addrs addr addresses) (some client) addresses in
    let others = after_loops addr site (some client) (some key) path in
    let parts : has_failures
          (register_deploy_checks addr site (some client) (some key) first second path report)
        ≡ (has_failures d3s || has_failures d1s || has_failures others) =
      rw (same, add_all_lem results report)
        (let one = has_failures-append report results in
          let two = has_failures-append d3s (d1s ++ others) in
          let three = has_failures-append d1s others in ground (arith, one, two, three, clean)) in
    let loops = loops_pass addr client addresses in
    let rest = after_loops_pass addr client site key path in
    (
      λ h.
          let r = rest.0 (ground (arith, parts, h)) in
          (loops.0 (ground (arith, parts, h)), r.0, r.1, r.2),
      λ h. let l = loops.1 h.0 in let r = rest.1 (h.1, h.2, h.3) in ground (arith, parts, l, r),
    )
