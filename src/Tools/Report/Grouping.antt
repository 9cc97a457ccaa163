-- ===== src/Tools/Report/Grouping.antt =====
-- The groups in which Fprint writes the results of a report.
use averlock.Prelude.{
  ◌≡◌, refl, sym, true, false, ◌||◌, List, [], ◌∷◌, Bytes, bytes_eq, bytes_eq→eq, bytes_eq_refl,
  arith, Bool-cases, inl, inr,
}
use mathlib.Core.Path.{subst}
use mathlib.Core.List.{Perm, perm_middle}
use mathlib.Core.List.Perm
use averlock.Tools.Report.{CheckResult, Report, contains, steps_from, of_step, in_groups}

abbrev pub Distinct : List Bytes → Type 0
Distinct [] = Unit
Distinct (k ∷ ks) = (contains k ks ≡ false) × Distinct ks

-- the step of every result is among the first or the second keys
abbrev pub Covered : List Bytes → List Bytes → Report → Type 0
Covered seen ks [] = Unit
Covered seen ks (res ∷ report) =
    ((contains res.step seen || contains res.step ks) ≡ true) × Covered seen ks report

-- a step that is not among the keys is in no group
in_groups_other :
    (ks : List Bytes) (res : CheckResult) (report : Report)
    → contains res.step ks ≡ false
    → in_groups ks (res ∷ report) ≡ in_groups ks report
unfolding in_groups contains
in_groups_other [] res report h = refl
in_groups_other (k ∷ ks) res report h = ground (arith, in_groups_other ks res report)

in_groups-cons :
    (ks : List Bytes) (res : CheckResult) (report : Report)
    → Distinct ks
    → contains res.step ks ≡ true
    → Perm (in_groups ks (res ∷ report)) (res ∷ in_groups ks report)
unfolding in_groups contains
in_groups-cons [] res report d h = absurd (cc h)
in_groups-cons (k ∷ ks) res report d h = elim (Bool-cases (bytes_eq res.step k)) [
  | inl own ↦
      let same : res.step ≡ k = bytes_eq→eq res.step k own in
      let rest = in_groups_other ks res report (rw same d.0) in rw (own, rest) (Perm.refl _)
  | inr other ↦
      let rest = in_groups-cons ks res report d.1 (ground arith) in
      rw other (
        Perm.trans (Perm.append_left (of_step k report) rest)
          (perm_middle (of_step k report) (in_groups ks report)))
]

in_groups-nil : (ks : List Bytes) → Perm (in_groups ks []) []
unfolding in_groups
in_groups-nil [] = Perm.refl []
in_groups-nil (k ∷ ks) = in_groups-nil ks

in_groups-Perm :
    (ks : List Bytes) (report : Report)
    → Distinct ks
    → Covered [] ks report
    → Perm (in_groups ks report) report
in_groups-Perm ks [] d c = in_groups-nil ks
in_groups-Perm ks (res ∷ report) d c =
    Perm.trans (in_groups-cons ks res report d (unfold contains in c.0))
      (Perm.cons res (in_groups-Perm ks report d c.1))

steps_from_seen :
    (seen : List Bytes) (report : Report) (k : Bytes)
    → contains k seen ≡ true
    → contains k (steps_from seen report) ≡ false
unfolding steps_from contains
steps_from_seen seen [] k h = refl
steps_from_seen seen (res ∷ report) k h = elim (Bool-cases (contains res.step seen)) [
  | inl again ↦ rw again (steps_from_seen seen report k h)
  | inr new ↦
      let rest = steps_from_seen (res.step ∷ seen) report k (ground arith) in
      rw new (elim (Bool-cases (bytes_eq k res.step)) [
        | inl same ↦ let eq : k ≡ res.step = bytes_eq→eq k res.step same in absurd (cc (h, new, eq))
        | inr other ↦ ground arith
      ])
]

steps_from-Distinct : (seen : List Bytes) (report : Report) → Distinct (steps_from seen report)
unfolding steps_from contains
steps_from-Distinct seen [] = tt
steps_from-Distinct seen (res ∷ report) = elim (Bool-cases (contains res.step seen)) [
  | inl again ↦ rw again (steps_from-Distinct seen report)
  | inr new ↦
      let own : contains res.step (res.step ∷ seen) ≡ true =
        ground (arith, bytes_eq_refl res.step) in
      rw new (
        steps_from_seen (res.step ∷ seen) report res.step own,
        steps_from-Distinct (res.step ∷ seen) report,
      )
]

Covered-shift :
    (k : Bytes) (seen ks : List Bytes) (report : Report)
    → Covered (k ∷ seen) ks report
    → Covered seen (k ∷ ks) report
unfolding contains
Covered-shift k seen ks [] c = tt
Covered-shift k seen ks (res ∷ report) c = (ground (arith, c.0), Covered-shift k seen ks report c.1)

steps_again :
    (seen : List Bytes) (res : CheckResult) (report : Report)
    → contains res.step seen ≡ true
    → steps_from seen (res ∷ report) ≡ steps_from seen report
unfolding steps_from
steps_again seen res report again = rw again refl

steps_first :
    (seen : List Bytes) (res : CheckResult) (report : Report)
    → contains res.step seen ≡ false
    → steps_from seen (res ∷ report) ≡ res.step ∷ steps_from (res.step ∷ seen) report
unfolding steps_from
steps_first seen res report new = rw new refl

steps_from-Covered :
    (seen : List Bytes) (report : Report) → Covered seen (steps_from seen report) report
unfolding contains
steps_from-Covered seen [] = tt
steps_from-Covered seen (res ∷ report) = elim (Bool-cases (contains res.step seen)) [
  | inl again ↦
      subst (λ ks. Covered seen ks (res ∷ report)) (sym (steps_again seen res report again))
        (ground (arith, again), steps_from-Covered seen report)
  | inr new ↦
      subst (λ ks. Covered seen ks (res ∷ report)) (sym (steps_first seen res report new))
        (
          ground (arith, bytes_eq_refl res.step),
          Covered-shift res.step seen (steps_from (res.step ∷ seen) report) report
              (steps_from-Covered (res.step ∷ seen) report),
        )
]

-- The results in the order in which Fprint writes them, group by group in the order in which the steps
-- first appear, are the results of the report, each as often as there.
in_groups-steps_from : (report : Report) → Perm (in_groups (steps_from [] report) report) report
in_groups-steps_from report =
    in_groups-Perm (steps_from [] report) report (steps_from-Distinct [] report)
      (steps_from-Covered [] report)
