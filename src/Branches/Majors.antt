-- ===== src/Branches/Majors.antt =====
-- Under which majors `selectBranches` of src/branches.ts returns its branches.
use jsrproxy.Common.{
  ℕ, ◌<◌, ◌≡◌, sym, ap, ◌∙◌, ◌⊎◌, inl, inr, Option, none, some, [], ◌∷◌, arith, ok, In, subst,
  text_eq,
}
use jsrproxy.Common.Decimal.{decimal}
use jsrproxy.Common.Map.{IsMap, In-get}
use jsrproxy.Branches.{
  BranchDiscovery, BranchState, BranchSelection, SelectedBranch, default_major, select_branches,
}
use jsrproxy.Branches.ReleaseMajor.{release_major_iff}
use jsrproxy.Common.Marks.{Covers, Covers-trans}
use jsrproxy.Branches.HighWater.{collect-Covers, collect_majors-Covers}
use jsrproxy.Branches.Select.{Selects, default_entry, select_branches-Selects}
use jsrproxy.Branches.Members.{IsRelease, IsDefault, select_branches-members}

module _ (discovery : BranchDiscovery) (prior : BranchState) (selection : BranchSelection)
    (h : select_branches discovery prior ≡ ok selection) where
  abbrev parts : Selects discovery prior selection
  parts = select_branches-Selects discovery prior selection h

  abbrev high : Option ℕ
  high = selection.state.highest_observed_release_major

  -- The high-water mark never falls, also when a release branch is gone.
  pub select_branches-high_water : Covers prior.highest_observed_release_major high
  select_branches-high_water =
      subst (Covers prior.highest_observed_release_major) (sym parts.observed)
        (collect-Covers discovery.branches ([], prior.highest_observed_release_major))

  release-Covers : (s : SelectedBranch) → IsRelease discovery s → Covers (some s.major) high
  release-Covers s i = subst (Covers (some s.major)) (sym parts.observed) (
      collect_majors-Covers discovery.branches ([], prior.highest_observed_release_major) s.branch
        s.tip s.major i.0 i.1)

  Covers-lt-default : (major : ℕ) (o : Option ℕ) → Covers (some major) o → major < default_major o
  unfolding default_major
  Covers-lt-default major none c = absurd c
  Covers-lt-default major (some n) c = omega arith

  default_major-above : (s : SelectedBranch) → IsRelease discovery s → s.major < default_major high
  default_major-above s i = Covers-lt-default s.major high (release-Covers s i)

  -- If the default branch is selected as such, its major is above every major that was ever
  -- observed: those of all release branches of this discovery, and all up to the earlier
  -- high-water mark.
  pub select_branches-default_above :
      (s : SelectedBranch) (gone : ℕ)
      → IsDefault discovery selection s
      → Covers (some gone) prior.highest_observed_release_major
        ⊎ ((r : SelectedBranch) × IsRelease discovery r × (gone ≡ r.major))
      → gone < s.major
  select_branches-default_above s gone is_default seen =
      subst (λ n. gone < n) (sym (ap (λ r. r.major) is_default.1))
        (elim seen [
          | inl before ↦ Covers-lt-default gone high (
              Covers-trans (some gone) prior.highest_observed_release_major high before
                select_branches-high_water)
          | inr (r, i, e) ↦ subst (λ n. n < default_major high) (sym e) (default_major-above r i)
        ])

  release_names :
      (s t : SelectedBranch)
      → IsRelease discovery s
      → IsRelease discovery t
      → s.major ≡ t.major
      → s.branch ≡ t.branch
  release_names s t i j e =
      ((release_major_iff s.branch s.major).0 i.1).0
      ∙ ap (λ n. b'v' ∷ decimal n) e
      ∙ sym ((release_major_iff t.branch t.major).0 j.1).0

  -- If each branch name occurs once, two branches are never selected under one major.
  pub select_branches-majors_distinct :
      IsMap discovery.branches
      → (s t : SelectedBranch) → In s selection.branches
      → In t selection.branches
      → s.major ≡ t.major
      → s ≡ t
  select_branches-majors_distinct keys s t ms mt e =
      elim ((select_branches-members discovery prior selection h s).0 ms) [
        | inl i ↦ elim ((select_branches-members discovery prior selection h t).0 mt) [
          | inl j ↦
              let name = release_names s t i j e in
              let tip : s.tip ≡ t.tip =
                cc (In-get discovery.branches keys i.0, In-get discovery.branches keys j.0, name) in
              λ k. record { branch = name k; major = e k; tip = tip k }
          | inr d ↦ absurd (omega (arith, default_major-above s i, ap (λ r. r.major) d.1))
        ]
        | inr c ↦ elim ((select_branches-members discovery prior selection h t).0 mt) [
          | inl j ↦ absurd (omega (arith, default_major-above t j, ap (λ r. r.major) c.1))
          | inr d ↦
              let tip : s.tip ≡ t.tip = cc (c.0, d.0) in
              c.1 ∙ ap (default_entry discovery selection) tip ∙ sym d.1
        ]
      ]
