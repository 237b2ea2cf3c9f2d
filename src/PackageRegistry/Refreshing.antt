-- ===== src/PackageRegistry/Refreshing.antt =====
-- What `refresh` of src/package-registry.ts promises.
use jsrproxy.Common.{
  ◌≡◌, refl, sym, ap, subst, ◌∙◌, some, List, [], ◌∷◌, arith, text_eq, nat_eq, ok,
}
use jsrproxy.Common.Map.{get}
use jsrproxy.Branches.{SelectedBranch}
use jsrproxy.VersionAllocator.{VersionAssignment, VersionAllocator}
use jsrproxy.PackageRegistry.Records.{MaterializationJob, VersionRecord, PackageRegistry}
use jsrproxy.PackageRegistry.{enter, Refreshed}
use jsrproxy.Common.{In, here, there, >>=-eq-ok}
use jsrproxy.Branches.{BranchDiscovery, BranchSelection, select_branches}
use jsrproxy.Branches.Select.{select_branches_again}
use jsrproxy.VersionAllocator.Assignments.{assignment_of}
use jsrproxy.VersionAllocator.Total.{allocate_assigned}
use jsrproxy.VersionAllocator.Rises.{IsAllSafe}
use jsrproxy.PackageRegistry.{refresh_branches, refresh}
use jsrproxy.PackageRegistry.Refresh.{Extends, IsConsistentRegistry, enter-found}
use jsrproxy.VersionAllocator.Total.{assignment_of-Holds}
use jsrproxy.PackageRegistry.RefreshLoop.{
  first_round, refresh_branches-Round, IsAssigned, refresh_branches-IsAssigned,
}

enter-branches :
    (branch : SelectedBranch) (assignment : VersionAssignment) (allocator : VersionAllocator)
    (refreshed : Refreshed)
    → (enter branch assignment allocator refreshed).0.branches ≡ refreshed.0.branches
unfolding enter
enter-branches branch assignment allocator refreshed = ground arith

refresh_branches-branches :
    (branches : List SelectedBranch) (refreshed result : Refreshed)
    → refresh_branches branches refreshed ≡ ok result
    → result.0.branches ≡ refreshed.0.branches
unfolding refresh_branches
refresh_branches-branches [] refreshed result h =
    let same : refreshed ≡ result = cc in ap (λ r. r.0.branches) (sym same)
refresh_branches-branches (branch ∷ rest) refreshed result h =
    let first = first_round branch rest refreshed result h in
    refresh_branches-branches rest (enter branch first.assignment first.allocator refreshed) result
      first.remaining
    ∙ enter-branches branch first.assignment first.allocator refreshed

-- A call of `refresh` that returned: its selection and its loop.
pub record Refreshes (registry : PackageRegistry) (discovery : BranchDiscovery) (result : Refreshed)
    : Type 0 where
  pub selection : BranchSelection
  pub selected : select_branches discovery registry.branches ≡ ok selection
  pub looped :
      refresh_branches selection.branches (record registry { branches = selection.state }, [])
      ≡ ok result

pub refresh-Refreshes :
    (registry : PackageRegistry) (discovery : BranchDiscovery) (result : Refreshed)
    → refresh registry discovery ≡ ok result
    → Refreshes registry discovery result
unfolding refresh
refresh-Refreshes registry discovery result h =
    let (selection, selected, looped) =
      >>=-eq-ok (select_branches discovery registry.branches) _ h in
    record { selection = selection; selected = selected; looped = looped }

-- A refresh throws nothing away and keeps records and assignments in correspondence.
pub refresh-Round :
    (registry : PackageRegistry) (discovery : BranchDiscovery) (result : Refreshed)
    → IsConsistentRegistry registry
    → IsAllSafe result.0.allocator
    → refresh registry discovery ≡ ok result
    → IsConsistentRegistry result.0 × Extends registry.versions result.0.versions
refresh-Round registry discovery result consistent safe h =
    let parts = refresh-Refreshes registry discovery result h in
    let round =
      refresh_branches-Round parts.selection.branches
        (record registry { branches = parts.selection.state }, []) result consistent safe
        parts.looped in
    (round.consistent, round.extends)

-- A branch with the record of its commit's version.
abbrev pub IsEntered : PackageRegistry → SelectedBranch → Type 0
IsEntered registry branch =
    (a : VersionAssignment) × (r : VersionRecord) × (assignment_of registry.allocator branch.major
        branch.tip.sha
      ≡ some a)
    × (get registry.versions a.version ≡ some r)
    × (r.assignment ≡ a)

IsAssigned-IsEntered :
    (registry : PackageRegistry) (branch : SelectedBranch)
    → IsConsistentRegistry registry
    → IsAssigned registry.allocator branch
    → IsEntered registry branch
IsAssigned-IsEntered registry branch consistent is_assigned =
    let (k, held) =
      assignment_of-Holds registry.allocator branch.major branch.tip.sha is_assigned.assignment
        is_assigned.assigned in
    let has_record = consistent.complete branch.major k is_assigned.assignment held in
    (
      is_assigned.assignment, has_record.version_record, is_assigned.assigned, has_record.found,
      has_record.same,
    )

-- After a refresh that returned, of a registry whose records and assignments correspond and with
-- sequence numbers that are safe integers, each selected branch has a version, and the registry
-- a record of it.
pub refresh-IsEntered :
    (registry : PackageRegistry) (discovery : BranchDiscovery) (result : Refreshed)
    (selection : BranchSelection)
    → IsConsistentRegistry registry
    → IsAllSafe result.0.allocator
    → refresh registry discovery ≡ ok result
    → select_branches discovery registry.branches ≡ ok selection
    → (branch : SelectedBranch) → In branch selection.branches
    → IsEntered result.0 branch
refresh-IsEntered registry discovery result selection consistent safe h selected branch m =
    let parts = refresh-Refreshes registry discovery result h in
    let same : selection ≡ parts.selection = cc (selected, parts.selected) in
    IsAssigned-IsEntered result.0 branch
      (refresh-Round registry discovery result consistent safe h).0
      (refresh_branches-IsAssigned parts.selection.branches
        (record registry { branches = parts.selection.state }, []) result consistent safe
        parts.looped branch (subst (λ s. In branch s.branches) same m))

-- A loop over assigned branches changes nothing and creates nothing.
refresh_branches-settled :
    (branches : List SelectedBranch) (registry : PackageRegistry)
    (created : List MaterializationJob)
    → IsConsistentRegistry registry
    → ((branch : SelectedBranch) → In branch branches → IsAssigned registry.allocator branch)
    → refresh_branches branches (registry, created) ≡ ok (registry, created)
unfolding refresh_branches
refresh_branches-settled [] registry created consistent assigned = refl
refresh_branches-settled (branch ∷ rest) registry created consistent assigned =
    let is_assigned = assigned branch here in
    let (a, r, at_commit, found, same) =
      IsAssigned-IsEntered registry branch consistent is_assigned in
    let allocated =
      allocate_assigned registry.allocator branch.major branch.tip.sha branch.tip.committed_at a
        is_assigned.inputs at_commit in
    rw (allocated, enter-found branch a registry.allocator (registry, created) r found)
      (refresh_branches-settled rest registry created consistent (λ b m. assigned b (there m)))

-- After a refresh that returned, of a registry whose records and assignments correspond and with
-- sequence numbers that are safe integers, a second refresh that sees the same branches changes
-- nothing and creates no jobs.
pub refresh_again :
    (registry : PackageRegistry) (discovery : BranchDiscovery) (result : Refreshed)
    → IsConsistentRegistry registry
    → IsAllSafe result.0.allocator
    → refresh registry discovery ≡ ok result
    → refresh result.0 discovery ≡ ok (result.0, [])
unfolding refresh
refresh_again registry discovery result consistent safe h =
    let parts = refresh-Refreshes registry discovery result h in
    let begun : Refreshed = (record registry { branches = parts.selection.state }, []) in
    let state : result.0.branches ≡ parts.selection.state =
      refresh_branches-branches parts.selection.branches begun result parts.looped in
    let again = select_branches_again discovery registry.branches parts.selection parts.selected in
    let selected : select_branches discovery result.0.branches ≡ ok parts.selection =
      rw state again in
    let same : record result.0 { branches = parts.selection.state } ≡ result.0 =
      λ i. record result.0 { branches = sym state i } in
    rw (selected, same)
      (refresh_branches-settled parts.selection.branches result.0 []
        (refresh-Round registry discovery result consistent safe h).0
        (refresh_branches-IsAssigned parts.selection.branches begun result consistent safe
          parts.looped))
