-- ===== src/Tools/Report/Tally.antt =====
-- What Summary counts, and when there are failures.
use averlock.Prelude.{ℕ, ◌+◌, ◌≤◌, ◌<◌, ◌≡◌, ◌↔◌, refl, true, false, [], ◌∷◌, length, arith}
use averlock.Tools.Report.{Report, has_failures, Counts, count_one, count_from, no_counts}

-- Every status is one of the four.
abbrev pub AreKnown : Report → Type 0
AreKnown [] = Unit
AreKnown (res ∷ report) = (res.status ≤ 3) × AreKnown report

abbrev pub total : Counts → ℕ
total c = c.passed + c.warning + c.failed + c.skipped

total_from :
    (c : Counts) (report : Report)
    → AreKnown report
    → total (count_from c report) ≡ total c + length report
unfolding count_from
total_from c [] known = omega arith
total_from c (res ∷ report) known =
    let one : total (count_one res.status c) ≡ total c + 1 =
      unfold count_one in ground (arith, known.0) in
    omega (arith, one, total_from (count_one res.status c) report known.1)

failed_from :
    (c : Counts) (report : Report)
    → (has_failures report ≡ true → c.failed < (count_from c report).failed)
      × (has_failures report ≡ false → (count_from c report).failed ≡ c.failed)
unfolding count_from has_failures
failed_from c [] = (λ h. absurd (cc h), λ h. refl)
failed_from c (res ∷ report) =
    let rest = failed_from (count_one res.status c) report in
    unfold count_one in (λ h. ground (arith, rest.0, rest.1), λ h. ground (arith, rest.1))

-- Summary's four counts add up to the number of results, if every status is one of the four, and
-- HasFailures holds exactly when the count of failures is not zero.
count_from-total :
    (report : Report)
    → AreKnown report
    → (total (count_from no_counts report) ≡ length report)
      × ((has_failures report ≡ true) ↔ (0 < (count_from no_counts report).failed))
count_from-total report known =
    let failed = failed_from no_counts report in
    (
      omega (arith, total_from no_counts report known),
      (λ h. ground (arith, failed.0 h), λ h. ground (arith, failed.1)),
    )
