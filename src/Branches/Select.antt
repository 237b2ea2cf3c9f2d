-- ===== src/Branches/Select.antt =====
-- `selectBranches` of src/branches.ts as a whole: which branches it returns, and under which majors.
use jsrproxy.Common.{
  ℕ, ◌≡◌, refl, sym, ap, ◌∙◌, inl, inr, Option, none, some, [], Option-cases, ok, err,
  default_branch_missing, subst, text_eq,
}
use jsrproxy.Common.Map.{get}
use jsrproxy.Branches.{
  CommitTip, BranchDiscovery, BranchState, BranchSelection, SelectedBranch, collect, default_major,
  same_commit_release, with_default, select_branches,
}
use jsrproxy.Branches.Selection.{releases_of, collect-releases}
use jsrproxy.Branches.HighWater.{collect_settled_again}

-- The entry of the default branch at tip `tip`.
abbrev pub default_entry : BranchDiscovery → BranchSelection → CommitTip → SelectedBranch
default_entry discovery selection tip = record {
  branch = discovery.default_branch;
  major = default_major selection.state.highest_observed_release_major;
  tip = tip;
}

-- What a selection that returned is made of.
pub record Selects (discovery : BranchDiscovery) (prior : BranchState) (selection : BranchSelection)
    : Type 0 where
  pub tip : CommitTip
  pub default_tip : get discovery.branches discovery.default_branch ≡ some tip
  pub observed :
      selection.state.highest_observed_release_major
      ≡ (collect discovery.branches ([], prior.highest_observed_release_major)).1
  pub branches :
      selection.branches
      ≡ with_default
          (releases_of discovery.branches)
          (default_entry discovery selection tip)
          (same_commit_release (releases_of discovery.branches) tip)

-- The selection that the code builds once the default branch is found.
abbrev built : BranchDiscovery → BranchState → CommitTip → BranchSelection
built discovery prior tip =
    let loop = collect discovery.branches ([], prior.highest_observed_release_major) in
    record {
      state = record { highest_observed_release_major = loop.1 };
      branches =
          with_default loop.0
            (record { branch = discovery.default_branch; major = default_major loop.1; tip = tip })
            (same_commit_release loop.0 tip);
    }

built-Selects :
    (discovery : BranchDiscovery) (prior : BranchState) (tip : CommitTip)
    → get discovery.branches discovery.default_branch ≡ some tip
    → Selects discovery prior (built discovery prior tip)
built-Selects discovery prior tip e = record {
  tip = tip;
  default_tip = e;
  observed = refl;
  branches =
      ap
        (λ releases.
          with_default releases (default_entry discovery (built discovery prior tip) tip)
            (same_commit_release releases tip))
        (collect-releases discovery.branches ([], prior.highest_observed_release_major));
}

pub select_branches-Selects :
    (discovery : BranchDiscovery) (prior : BranchState) (selection : BranchSelection)
    → select_branches discovery prior ≡ ok selection
    → Selects discovery prior selection
unfolding select_branches
select_branches-Selects discovery prior selection h =
    elim (Option-cases (get discovery.branches discovery.default_branch)) [
      | inl e ↦ cc
      | inr (tip, e) ↦
          let same : built discovery prior tip ≡ selection = cc in
          subst (Selects discovery prior) same (built-Selects discovery prior tip e)
    ]

pub select_branches-missing :
    (discovery : BranchDiscovery) (prior : BranchState)
    → get discovery.branches discovery.default_branch ≡ none
    → select_branches discovery prior ≡ err (default_branch_missing discovery.default_branch)
unfolding select_branches
select_branches-missing discovery prior h = rw h refl

pub select_branches-returns :
    (discovery : BranchDiscovery) (prior : BranchState) (tip : CommitTip)
    → get discovery.branches discovery.default_branch ≡ some tip
    → (selection : BranchSelection) × (select_branches discovery prior ≡ ok selection)
unfolding select_branches
select_branches-returns discovery prior tip h = (built discovery prior tip, rw h refl)

-- The selection at high-water mark `o`.
abbrev settled : BranchDiscovery → CommitTip → Option ℕ → BranchSelection
settled discovery tip o = record {
  state = record { highest_observed_release_major = o };
  branches =
      with_default (releases_of discovery.branches)
        (record { branch = discovery.default_branch; major = default_major o; tip = tip })
        (same_commit_release (releases_of discovery.branches) tip);
}

built-settled :
    (discovery : BranchDiscovery) (prior : BranchState) (tip : CommitTip)
    → built discovery prior tip
      ≡ settled discovery tip
          (collect discovery.branches ([], prior.highest_observed_release_major)).1
built-settled discovery prior tip =
    let o = (collect discovery.branches ([], prior.highest_observed_release_major)).1 in
    ap
      (λ releases. record {
        state = record { highest_observed_release_major = o };
        branches =
            with_default releases
              (record { branch = discovery.default_branch; major = default_major o; tip = tip })
              (same_commit_release releases tip);
      })
      (collect-releases discovery.branches ([], prior.highest_observed_release_major))

select_branches-settled :
    (discovery : BranchDiscovery) (prior : BranchState) (tip : CommitTip)
    → get discovery.branches discovery.default_branch ≡ some tip
    → select_branches discovery prior
      ≡ ok (
          settled discovery tip
            (collect discovery.branches ([], prior.highest_observed_release_major)).1)
unfolding select_branches
select_branches-settled discovery prior tip e = rw e (ap ok (built-settled discovery prior tip))

-- A refresh that sees the same branches selects the same branches under the same majors.
pub select_branches_again :
    (discovery : BranchDiscovery) (prior : BranchState) (selection : BranchSelection)
    → select_branches discovery prior ≡ ok selection
    → select_branches discovery selection.state ≡ ok selection
select_branches_again discovery prior selection h =
    let parts = select_branches-Selects discovery prior selection h in
    let first = select_branches-settled discovery prior parts.tip parts.default_tip in
    let again = select_branches-settled discovery selection.state parts.tip parts.default_tip in
    again
    ∙ ap (λ o. ok (settled discovery parts.tip o))
        (rw parts.observed
          (collect_settled_again discovery.branches ([], prior.highest_observed_release_major) []))
    ∙ sym first
    ∙ h
