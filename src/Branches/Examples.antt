-- ===== src/Branches/Examples.antt =====
-- The laws of src/branches.ts at a repository with a default branch and two release branches.
use jsrproxy.Common.{
  ℕ, ◌≡◌, ◌⊎◌, ◌↔◌, ◌≤◌, ◌<◌, refl, inl, inr, Option, none, some, List, [], ◌∷◌, Text, codes,
  Result, ok, err, arith, In, here, there, In-cons_cases, not-In-nil, default_branch_missing,
  max_safe_integer, ap, text_eq,
}
use jsrproxy.Common.Decimal.{decimal, number}
use jsrproxy.Common.Marks.{Covers}
use jsrproxy.Common.Map.{get, IsMap}
use jsrproxy.Branches.{
  CommitTip, BranchDiscovery, BranchState, BranchSelection, SelectedBranch, release_major,
  select_branches, collect, visit, same_commit_release, with_default, default_major,
}
use jsrproxy.Branches.ReleaseMajor.{release_major_iff}
use jsrproxy.Branches.Select.{select_branches_again}
use jsrproxy.Branches.Members.{
  IsRelease, IsDefault, SameCommit, select_branches-members, select_branches_total,
}
use jsrproxy.Branches.Majors.{
  select_branches-high_water, select_branches-default_above, select_branches-majors_distinct,
}

abbrev tip : Text → ℕ → CommitTip
tip sha committed_at = record { sha = sha; committed_at = committed_at }

abbrev repository : BranchDiscovery
repository = record {
  default_branch = codes "main";
  branches =
      (codes "main", tip (codes "c3") 300)
      ∷ (codes "v1", tip (codes "c1") 100)
      ∷ (codes "topic", tip (codes "c9") 200)
      ∷ (codes "v0", tip (codes "c0") 50)
      ∷ [];
}

-- A release branch v4 was seen earlier, and is gone.
abbrev seen_four : BranchState
seen_four = record { highest_observed_release_major = some 4 }

abbrev v1_branch : SelectedBranch
v1_branch = record { branch = codes "v1"; major = 1; tip = tip (codes "c1") 100 }

abbrev v0_branch : SelectedBranch
v0_branch = record { branch = codes "v0"; major = 0; tip = tip (codes "c0") 50 }

abbrev main_branch : SelectedBranch
main_branch = record { branch = codes "main"; major = 5; tip = tip (codes "c3") 300 }

abbrev selection : BranchSelection
selection = record { state = seen_four; branches = v1_branch ∷ v0_branch ∷ main_branch ∷ [] }

selected : select_branches repository seen_four ≡ ok selection
unfolding select_branches collect release_major number same_commit_release with_default
    default_major get jsrproxy.Common.filter jsrproxy.Common.sort_by jsrproxy.Common.text_beq visit
selected = refl

release_major_iff_example :
    (release_major (codes "v17") ≡ some 17)
    ↔ ((codes "v17" ≡ b'v' ∷ decimal 17) × (17 ≤ max_safe_integer))
release_major_iff_example = release_major_iff (codes "v17") 17

-- GitHub returned the default branch, so the second case holds.
select_branches_total_example :
    ((get repository.branches (codes "main") ≡ none)
      × (select_branches repository seen_four ≡ err (default_branch_missing (codes "main"))))
    ⊎ ((tip : CommitTip) × (get repository.branches (codes "main") ≡ some tip)
        × (selection : BranchSelection) × (select_branches repository seen_four ≡ ok selection)
        × (s : SelectedBranch) × In s selection.branches
        × SameCommit tip s)
select_branches_total_example = select_branches_total repository seen_four

select_branches-members_example :
    In v0_branch selection.branches
    ↔ (IsRelease repository v0_branch ⊎ IsDefault repository selection v0_branch)
select_branches-members_example =
    select_branches-members repository seen_four selection selected v0_branch

select_branches-high_water_example : Covers (some 4) (some 4)
select_branches-high_water_example =
    select_branches-high_water repository seen_four selection selected

select_branches_again_example : select_branches repository selection.state ≡ ok selection
select_branches_again_example = select_branches_again repository seen_four selection selected

repository-IsMap : IsMap repository.branches
unfolding get jsrproxy.Common.text_beq
repository-IsMap = (refl, (refl, (refl, (refl, tt))))

select_branches-majors_distinct_example : v1_branch ≡ v1_branch
select_branches-majors_distinct_example =
    select_branches-majors_distinct repository seen_four selection selected repository-IsMap
      v1_branch v1_branch here here refl

main_not_release : (r : SelectedBranch) → IsRelease repository r → ¬ SameCommit main_branch.tip r
unfolding release_major number
main_not_release r i e = elim (In-cons_cases i.0) [
  | inl at_main ↦
      let name : r.branch ≡ codes "main" = ap (λ p. p.0) at_main in
      let owns : release_major (codes "main") ≡ some r.major = rw name at i.1 in cc owns
  | inr after_main ↦ elim (In-cons_cases after_main) [
    | inl at_v1 ↦
        let sha : r.tip.sha ≡ codes "c1" = ap (λ p. p.1.sha) at_v1 in ground (arith, e, sha)
    | inr after_v1 ↦ elim (In-cons_cases after_v1) [
      | inl at_topic ↦
          let sha : r.tip.sha ≡ codes "c9" = ap (λ p. p.1.sha) at_topic in ground (arith, e, sha)
      | inr after_topic ↦ elim (In-cons_cases after_topic) [
        | inl at_v0 ↦
            let sha : r.tip.sha ≡ codes "c0" = ap (λ p. p.1.sha) at_v0 in ground (arith, e, sha)
        | inr none_left ↦ not-In-nil none_left
      ]
    ]
  ]
]

main-IsDefault : IsDefault repository selection main_branch
unfolding get jsrproxy.Common.text_beq default_major
main-IsDefault = (refl, refl, main_not_release)

select_branches-default_above_example : 4 < 5
select_branches-default_above_example =
    select_branches-default_above repository seen_four selection selected main_branch 4
      main-IsDefault (inl (omega arith))
