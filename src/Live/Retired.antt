-- ===== src/Live/Retired.antt =====
-- The machines that retireStaleMachines in packages/fcc-extension/tools/cmd/run-test/main.go bans.
use averlock.Prelude.{
  ℕ, ◌≡◌, ◌≢◌, refl, ap, Bool, true, false, Option, none, some, List, [], ◌∷◌, ◌==◌, arith, Result,
  ok, err, and_then, ◌⊎◌, Bool-cases, inl, inr,
}
use averlock.Validate.{Address}
use averlock.Live.{LiveError, retirement_refused, retirement_failed}
use averlock.Live.Machines.{
  Chain, is_answer, verified, after_ban, retire_one, retire_all, only_expected, confirm_only,
  retire_listed, retire_stale_machines,
}

module _ {V : Type 0} (chain : Chain V) (owner expected_tee : Address) (extension_id : ℕ) where
  -- The steps of a retirement: only a machine of the owner and the extension, which is in production
  -- and not the expected one, is banned.
  pub data Retired : V → V → Type 0 where
    stay : (v : V) → Retired v v
    banned :
        (v w : V) (tee : Address)
        → tee ≢ expected_tee
        → chain.get_tee_machine_owner v tee ≡ some owner
        → chain.get_extension_id v tee ≡ some extension_id
        → chain.get_tee_machine_status v tee ≡ some 2
        → Retired (chain.ban tee v).1 w
        → Retired v w

  Retired-trans : {u v w : V} → Retired u v → Retired v w → Retired u w
  Retired-trans (stay u) q = q
  Retired-trans (banned u w tee ne own ext status rest) q =
      banned u _ tee ne own ext status (Retired-trans rest q)

  is_answer-eq : (n : ℕ) (o : Option ℕ) → is_answer n o ≡ true → o ≡ some n
  unfolding is_answer
  is_answer-eq n none h = absurd (cc h)
  is_answer-eq n (some m) h = ground (arith, h)

  verified_lem :
      (tee : Address) (v : V)
      → verified chain owner expected_tee extension_id tee v ≡ true
      → (chain.get_tee_machine_owner v tee ≡ some owner)
        × (chain.get_extension_id v tee ≡ some extension_id)
        × (chain.get_tee_machine_status v tee ≡ some 2)
  unfolding verified
  verified_lem tee v h = (
    is_answer-eq owner (chain.get_tee_machine_owner v tee) (ground (arith, h)),
    is_answer-eq extension_id (chain.get_extension_id v tee) (ground (arith, h)),
    is_answer-eq 2 (chain.get_tee_machine_status v tee) (ground (arith, h)),
  )

  after_ban-keeps :
      (sent : Bool) (v : V) → (after_ban chain owner expected_tee extension_id (sent, v)).1 ≡ v
  unfolding after_ban
  after_ban-keeps false v = refl
  after_ban-keeps true v = ground (arith)

  retire_one_kept :
      (tee : Address) (v : V)
      → tee ≡ expected_tee
      → retire_one chain owner expected_tee extension_id tee v ≡ (ok tt, v)
  unfolding retire_one
  retire_one_kept tee v kept = ground (arith, kept)

  retire_one_refused :
      (tee : Address) (v : V)
      → tee ≢ expected_tee
      → verified chain owner expected_tee extension_id tee v ≡ false
      → retire_one chain owner expected_tee extension_id tee v ≡ (err retirement_refused, v)
  unfolding retire_one
  retire_one_refused tee v other unverified = ground (arith, other, unverified)

  retire_one_unsent :
      (tee : Address) (v : V)
      → tee ≢ expected_tee
      → verified chain owner expected_tee extension_id tee v ≡ true
      → chain.transactor ≡ false
      → retire_one chain owner expected_tee extension_id tee v ≡ (err retirement_failed, v)
  unfolding retire_one
  retire_one_unsent tee v other checked unable = ground (arith, other, checked, unable)

  retire_one_sent :
      (tee : Address) (v : V)
      → tee ≢ expected_tee
      → verified chain owner expected_tee extension_id tee v ≡ true
      → chain.transactor ≡ true
      → retire_one chain owner expected_tee extension_id tee v
        ≡ after_ban chain owner expected_tee extension_id (chain.ban tee v)
  unfolding retire_one
  retire_one_sent tee v other checked able = ground (arith, other, checked, able)

  dec_equal : (m n : ℕ) → (m ≡ n) ⊎ (m ≢ n)
  dec_equal m n = elim (Bool-cases (m == n)) [
    | inl same ↦ inl (ground (arith, same))
    | inr other ↦ inr (λ same. ground (arith, same, other))
  ]

  retire_one-Retired :
      (tee : Address) (v : V) → Retired v (retire_one chain owner expected_tee extension_id tee v).1
  retire_one-Retired tee v = elim (dec_equal tee expected_tee) [
    | inl kept ↦ rw (retire_one_kept tee v kept) (stay v)
    | inr other ↦ elim (Bool-cases (verified chain owner expected_tee extension_id tee v)) [
      | inr refused ↦ rw (retire_one_refused tee v other refused) (stay v)
      | inl checked ↦ elim (Bool-cases chain.transactor) [
        | inr unable ↦ rw (retire_one_unsent tee v other checked unable) (stay v)
        | inl able ↦
            let (own, ext, status) = verified_lem tee v checked in
            rw (retire_one_sent tee v other checked able) (
              banned v _ tee other own ext status
                (rw (after_ban-keeps (chain.ban tee v).0 (chain.ban tee v).1) (stay _)))
      ]
    ]
  ]

  and_then-Retired :
      {A B : Type 0} (v : V) (run : Result LiveError A × V) (f : A → V → Result LiveError B × V)
      → Retired v run.1
      → ((a : A) (w : V) → Retired w (f a w).1)
      → Retired v (and_then run f).1
  and_then-Retired v (ok a, w) f first rest = Retired-trans first (rest a w)
  and_then-Retired v (err e, w) f first rest = first

  retire_all-Retired :
      (tees : List Address) (v : V)
      → Retired v (retire_all chain owner expected_tee extension_id tees v).1
  unfolding retire_all
  retire_all-Retired [] v = stay v
  retire_all-Retired (tee ∷ tees) v =
      and_then-Retired v _ _ (retire_one-Retired tee v) (λ _ w. retire_all-Retired tees w)

  only_expected_lem :
      (found : Option (List Address))
      → only_expected chain owner expected_tee extension_id found ≡ true
      → found ≡ some (expected_tee ∷ [])
  unfolding only_expected
  only_expected_lem none h = absurd (cc h)
  only_expected_lem (some []) h = absurd (cc h)
  only_expected_lem (some (tee ∷ [])) h = ap (λ t. some (t ∷ [])) (ground (arith, h))
  only_expected_lem (some (tee ∷ x ∷ more)) h = absurd (cc h)

  confirm_only-keeps : (w : V) → (confirm_only chain owner expected_tee extension_id w).1 ≡ w
  unfolding confirm_only
  confirm_only-keeps w = ground (arith)

  -- the active machines are the expected one
  unfoldable pub OnlyExpected : V → Type 0
  OnlyExpected v = chain.get_active_tee_machines v extension_id ≡ some (expected_tee ∷ [])

  confirm_only-OnlyExpected :
      (w : V)
      → (confirm_only chain owner expected_tee extension_id w).0 ≡ ok tt
      → OnlyExpected (confirm_only chain owner expected_tee extension_id w).1
  unfolding confirm_only OnlyExpected
  confirm_only-OnlyExpected w done =
      rw (confirm_only-keeps w) (only_expected_lem _ (ground (arith, done)))

  and_then-OnlyExpected :
      {A B : Type 0} (b : B) (run : Result LiveError A × V) (f : A → V → Result LiveError B × V)
      → ((a : A) (w : V) → (f a w).0 ≡ ok b → OnlyExpected (f a w).1)
      → (and_then run f).0 ≡ ok b
      → OnlyExpected (and_then run f).1
  and_then-OnlyExpected b (ok a, w) f rest done = rest a w done
  and_then-OnlyExpected b (err e, w) f rest done = absurd (cc done)

  retire_listed-OnlyExpected :
      (found : Option (List Address)) (v : V)
      → (retire_listed chain owner expected_tee extension_id found v).0 ≡ ok tt
      → OnlyExpected (retire_listed chain owner expected_tee extension_id found v).1
  unfolding retire_listed
  retire_listed-OnlyExpected none v done = absurd (cc done)
  retire_listed-OnlyExpected (some tees) v done =
      and_then-OnlyExpected tt (retire_all chain owner expected_tee extension_id tees v)
        (λ _ w. confirm_only chain owner expected_tee extension_id w)
        (λ _ w. confirm_only-OnlyExpected w) done

  retire_listed-Retired :
      (found : Option (List Address)) (v : V)
      → Retired v (retire_listed chain owner expected_tee extension_id found v).1
  unfolding retire_listed
  retire_listed-Retired none v = stay v
  retire_listed-Retired (some tees) v =
      and_then-Retired v (retire_all chain owner expected_tee extension_id tees v)
        (λ _ w. confirm_only chain owner expected_tee extension_id w) (retire_all-Retired tees v)
        (λ _ w. rw (confirm_only-keeps w) (stay w))

  -- Whatever the chain answers and wherever it stops, the retirement of stale machines bans only
  -- machines that, at that moment, are other than the expected one, belong to the owner and to the
  -- extension, and are in production; and when it succeeds the expected machine is the only active
  -- one of the extension.
  pub retire_stale_machines-Retired :
      (v : V)
      → Retired v (retire_stale_machines chain owner expected_tee extension_id v).1
        × ((retire_stale_machines chain owner expected_tee extension_id v).0 ≡ ok tt
            → OnlyExpected (retire_stale_machines chain owner expected_tee extension_id v).1)
  unfolding retire_stale_machines
  retire_stale_machines-Retired v = (retire_listed-Retired _ v, retire_listed-OnlyExpected _ v)
