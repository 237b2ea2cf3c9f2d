-- ===== src/PackageRegistry/Stored.antt =====
-- What the calls of src/package-registry.ts keep of the registry that is stored between them.
use jsrproxy.Common.{◌≡◌, sym, subst, ok, List, [], ◌∷◌, Text, Bool, >>=-eq-ok}
use jsrproxy.Branches.{SelectedBranch}
use jsrproxy.VersionAllocator.{VersionAllocator, allocate}
use jsrproxy.VersionAllocator.Keyed.{IsKeyed, allocate-IsKeyed, recover-IsKeyed}
use jsrproxy.VersionAllocator.Attained.{
  IsAllAttained, allocate-IsAllAttained, recover-IsAllAttained,
}
use jsrproxy.PackageRegistry.Records.{PackageRegistry}
use jsrproxy.PackageRegistry.{refresh_branches, enter, Refreshed}
use jsrproxy.PackageRegistry.Refresh.{IsConsistentRegistry, enter-allocator}
use jsrproxy.PackageRegistry.Refreshing.{refresh-Refreshes}
use jsrproxy.PackageRegistry.Recovery.{recover_version-Recovers}
use jsrproxy.PackageRegistry.Changes.{Changes}
use jsrproxy.PackageRegistry.Methods.{
  mark_ready-Changes, mark_yanked-Changes, release_lease-Changes,
}
use jsrproxy.PackageRegistry.Leases.{lease_next-Changes}
use jsrproxy.PackageRegistry.History.{Step, refreshes, recovers, leases, releases, readies, yanks}

-- The allocator has distinct keys, and marks that are sequence numbers.
pub record IsSettled (allocator : VersionAllocator) : Type 0 where
  pub keyed : IsKeyed allocator
  pub attained : IsAllAttained allocator

refresh_branches-IsSettled :
    (branches : List SelectedBranch) (refreshed result : Refreshed)
    → IsSettled refreshed.0.allocator
    → refresh_branches branches refreshed ≡ ok result
    → IsSettled result.0.allocator
unfolding refresh_branches
refresh_branches-IsSettled [] refreshed result settled h =
    let same : refreshed ≡ result = cc in subst (λ r. IsSettled r.0.allocator) same settled
refresh_branches-IsSettled (branch ∷ rest) refreshed result settled h =
    let ((assignment, allocator), allocated, later) =
      >>=-eq-ok (allocate refreshed.0.allocator branch.major branch.tip.sha branch.tip.committed_at)
        _ h in
    let next : IsSettled allocator = record {
      keyed =
          allocate-IsKeyed refreshed.0.allocator branch.major branch.tip.sha branch.tip.committed_at
            assignment allocator settled.keyed allocated;
      attained =
          allocate-IsAllAttained refreshed.0.allocator branch.major branch.tip.sha
            branch.tip.committed_at assignment allocator settled.attained allocated;
    } in
    refresh_branches-IsSettled rest (enter branch assignment allocator refreshed) result
      (subst IsSettled (sym (enter-allocator branch assignment allocator refreshed)) next) later

Changes-IsSettled :
    (before after : PackageRegistry)
    → IsSettled before.allocator
    → Changes before after
    → IsSettled after.allocator
Changes-IsSettled before after settled changes =
    subst (λ r. IsSettled r.allocator) (sym changes.written) settled

pub Step-IsSettled :
    (le : Text → Text → Bool) {before after : PackageRegistry}
    → IsConsistentRegistry before
    → IsSettled before.allocator
    → Step le before after
    → IsSettled after.allocator
Step-IsSettled le {before} {after} consistent settled (refreshes discovery created h) =
    let parts = refresh-Refreshes before discovery (after, created) h in
    refresh_branches-IsSettled parts.selection.branches
      (record before { branches = parts.selection.state }, []) (after, created) settled parts.looped
Step-IsSettled le {before} {after} consistent settled (recovers version reason recovered_at job h) =
    let parts = recover_version-Recovers before version reason recovered_at (after, job) h in
    let next : IsSettled parts.allocator = record {
      keyed =
          recover-IsKeyed before.allocator parts.old.major parts.old.commit_sha
            parts.old.assignment.sequence parts.assignment parts.allocator settled.keyed
            parts.reassigned;
      attained =
          recover-IsAllAttained before.allocator parts.old.major parts.old.commit_sha
            parts.old.assignment.sequence parts.assignment parts.allocator settled.attained
            parts.reassigned;
    } in
    subst (λ r. IsSettled r.0.allocator) (sym parts.result_eq) next
Step-IsSettled le {before} {after} consistent settled (leases now job h) =
    Changes-IsSettled before after settled (lease_next-Changes le before now consistent after job h)
Step-IsSettled le {before} {after} consistent settled (releases version h) =
    Changes-IsSettled before after settled (release_lease-Changes before version after consistent h)
Step-IsSettled le {before} {after} consistent settled (readies version h) =
    Changes-IsSettled before after settled (mark_ready-Changes before version after consistent h)
Step-IsSettled le {before} {after} consistent settled (yanks version diagnostic h) =
    Changes-IsSettled before after settled
      (mark_yanked-Changes before version diagnostic after consistent h)
