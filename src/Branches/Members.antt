-- ===== src/Branches/Members.antt =====
-- Which branches `selectBranches` of src/branches.ts returns.
use jsrproxy.Common.{
  ◌≡◌, refl, sym, ap, ◌∙◌, ◌↔◌, ◌⊎◌, inl, inr, true, Option, none, some, List, [], ◌∷◌, ok, In,
  here, ◌==◌, text_beq_iff, In-append_left, In-append_right, not-In-nil, In-cons_cases,
  In-append_cases, subst, text_eq, err, default_branch_missing, Option-cases,
}
use jsrproxy.Common.Map.{get}
use jsrproxy.Branches.{
  CommitTip, BranchDiscovery, BranchState, BranchSelection, SelectedBranch, release_major,
  same_commit_release, with_default, select_branches,
}
use jsrproxy.Common.Sorting.{sort_by-none, head-sort_by-In, In-filter_to, In-filter_from}
use jsrproxy.Branches.Selection.{releases_of, In-releases_of_to, In-releases_of_from}
use jsrproxy.Branches.Select.{
  Selects, default_entry, select_branches-Selects, select_branches-missing, select_branches-returns,
}

-- Whether a release stands at the commit of the default branch.
abbrev pub SameCommit : CommitTip → SelectedBranch → Type 0
SameCommit tip release = release.tip.sha ≡ tip.sha

SameCommit-test :
    (tip : CommitTip) (s : SelectedBranch) → ((s.tip.sha == tip.sha) ≡ true) ↔ SameCommit tip s
SameCommit-test tip s = text_beq_iff s.tip.sha tip.sha

same_commit_release-none :
    (releases : List SelectedBranch) (tip : CommitTip) {s : SelectedBranch}
    → same_commit_release releases tip ≡ none
    → In s releases
    → ¬ SameCommit tip s
unfolding same_commit_release
same_commit_release-none releases tip {s} h m e = not-In-nil (
    subst (In s) (sort_by-none _ _ h)
      (In-filter_from (λ r. r.tip.sha == tip.sha) releases m ((SameCommit-test tip s).1 e)))

same_commit_release-some :
    (releases : List SelectedBranch) (tip : CommitTip) (s : SelectedBranch)
    → same_commit_release releases tip ≡ some s
    → In s releases × SameCommit tip s
unfolding same_commit_release
same_commit_release-some releases tip s h =
    let (m, test) = In-filter_to (λ r. r.tip.sha == tip.sha) releases (head-sort_by-In _ _ s h) in
    (m, (SameCommit-test tip s).0 test)

-- A release that the discovery has.
abbrev pub IsRelease : BranchDiscovery → SelectedBranch → Type 0
IsRelease discovery s =
    In (s.branch, s.tip) discovery.branches × (release_major s.branch ≡ some s.major)

-- The entry of the default branch, which is published while no release stands at its commit.
abbrev pub IsDefault : BranchDiscovery → BranchSelection → SelectedBranch → Type 0
IsDefault discovery selection s =
    (get discovery.branches discovery.default_branch ≡ some s.tip)
    × (s ≡ default_entry discovery selection s.tip)
    × ((r : SelectedBranch) → IsRelease discovery r → ¬ SameCommit s.tip r)

module _ (discovery : BranchDiscovery) (prior : BranchState) (selection : BranchSelection)
    (h : select_branches discovery prior ≡ ok selection) where
  abbrev parts : Selects discovery prior selection
  parts = select_branches-Selects discovery prior selection h

  abbrev releases : List SelectedBranch
  releases = releases_of discovery.branches

  member_of_parts :
      (o : Option SelectedBranch) {s : SelectedBranch}
      → same_commit_release releases parts.tip ≡ o
      → In s (with_default releases (default_entry discovery selection parts.tip) o)
      → IsRelease discovery s ⊎ IsDefault discovery selection s
  unfolding with_default
  member_of_parts none {s} e m = elim (In-append_cases releases m) [
    | inl old ↦ inl (In-releases_of_to discovery.branches old)
    | inr new ↦ elim (In-cons_cases new) [
      | inl same ↦ inr (
          subst (IsDefault discovery selection) (sym same) (
            parts.default_tip,
            refl,
            λ r i.
                same_commit_release-none releases parts.tip e
                  (In-releases_of_from discovery.branches r.branch r.tip r.major i.0 i.1),
          ))
      | inr none_left ↦ absurd (not-In-nil none_left)
    ]
  ]
  member_of_parts (some r) e m = inl (In-releases_of_to discovery.branches m)

  member_from_default :
      (o : Option SelectedBranch) {s : SelectedBranch}
      → same_commit_release releases parts.tip ≡ o
      → IsDefault discovery selection s
      → In s (with_default releases (default_entry discovery selection parts.tip) o)
  unfolding with_default
  member_from_default none {s} e d =
      let tip : s.tip ≡ parts.tip = cc (d.0, parts.default_tip) in
      In-append_right releases (
        rw (← tip)
          (subst (λ r. In r (default_entry discovery selection s.tip ∷ [])) (sym d.1) here))
  member_from_default (some r) {s} e d =
      let (m, same) = same_commit_release-some releases parts.tip r e in
      let tip : s.tip ≡ parts.tip = cc (d.0, parts.default_tip) in
      absurd (d.2 r (In-releases_of_to discovery.branches m) (same ∙ ap (λ t. t.sha) (sym tip)))

  member_from_release :
      (o : Option SelectedBranch) {s : SelectedBranch}
      → IsRelease discovery s
      → In s (with_default releases (default_entry discovery selection parts.tip) o)
  unfolding with_default
  member_from_release none {s} i =
      In-append_left _ (In-releases_of_from discovery.branches s.branch s.tip s.major i.0 i.1)
  member_from_release (some r) {s} i =
      In-releases_of_from discovery.branches s.branch s.tip s.major i.0 i.1

  -- In a selection that returned are exactly the release branches, and the default branch beside
  -- them if no release branch stands at its commit: then under `default_major` of the new
  -- high-water mark.
  pub select_branches-members :
      (s : SelectedBranch)
      → In s selection.branches ↔ (IsRelease discovery s ⊎ IsDefault discovery selection s)
  select_branches-members s = (
    λ m.
        member_of_parts (same_commit_release releases parts.tip) refl
          (subst (In s) parts.branches m),
    λ c. subst (In s) (sym parts.branches) (elim c [
      | inl i ↦ member_from_release (same_commit_release releases parts.tip) i
      | inr d ↦ member_from_default (same_commit_release releases parts.tip) refl d
    ]),
  )

  -- The selection has a branch at the commit of the default branch.
  selection-SameCommit : (s : SelectedBranch) × In s selection.branches × SameCommit parts.tip s
  selection-SameCommit = elim (Option-cases (same_commit_release releases parts.tip)) [
    | inl e ↦ (
      default_entry discovery selection parts.tip,
      (select_branches-members (default_entry discovery selection parts.tip)).1 (
          inr (
            parts.default_tip,
            refl,
            λ r i.
                same_commit_release-none releases parts.tip e
                  (In-releases_of_from discovery.branches r.branch r.tip r.major i.0 i.1),
          )),
      refl,
    )
    | inr (r, e) ↦
        let (m, same) = same_commit_release-some releases parts.tip r e in
        (r, (select_branches-members r).1 (inl (In-releases_of_to discovery.branches m)), same)
  ]

-- Whatever was discovered and seen before, the call ends in one of two ways: GitHub did not return
-- the default branch, and the call throws the error that names it; or GitHub returned it, and the
-- call returns a selection, which has a branch at the commit of the default branch.
pub select_branches_total :
    (discovery : BranchDiscovery) (prior : BranchState)
    → ((get discovery.branches discovery.default_branch ≡ none)
        × (select_branches discovery prior ≡ err (default_branch_missing discovery.default_branch)))
      ⊎ ((tip : CommitTip) × (get discovery.branches discovery.default_branch ≡ some tip)
          × (selection : BranchSelection) × (select_branches discovery prior ≡ ok selection)
          × (s : SelectedBranch) × In s selection.branches
          × SameCommit tip s)
select_branches_total discovery prior =
    elim (Option-cases (get discovery.branches discovery.default_branch)) [
      | inl e ↦ inl (e, select_branches-missing discovery prior e)
      | inr (tip, e) ↦
          let (selection, h) = select_branches-returns discovery prior tip e in
          let (s, m, same) = selection-SameCommit discovery prior selection h in
          let found = (select_branches-Selects discovery prior selection h).default_tip in
          let at_tip : (select_branches-Selects discovery prior selection h).tip ≡ tip =
            cc (found, e) in
          inr (tip, e, selection, h, s, m, same ∙ ap (λ t. t.sha) at_tip)
    ]
