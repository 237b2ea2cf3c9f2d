-- ===== src/PackageRegistry/RefreshLoop.antt =====
-- The loop of `refresh` of src/package-registry.ts.
use jsrproxy.Common.{
  ℕ, ◌≤◌, ◌≡◌, sym, subst, inl, inr, some, List, [], ◌∷◌, Text, max_safe_integer, text_eq, nat_eq,
  ok,
}
use jsrproxy.Branches.{SelectedBranch}
use jsrproxy.VersionAllocator.{VersionAssignment, VersionAllocator, allocate}
use jsrproxy.PackageRegistry.{enter, Refreshed}
use jsrproxy.Common.{In, not-In-nil, In-cons_cases, >>=-eq-ok}
use jsrproxy.VersionAllocator.Assignments.{assignment_of}
use jsrproxy.VersionAllocator.Rises.{
  Rises, Rises-trans, IsAllSafe, Rises-IsAllSafe, high_water_of, allocate-Rises, allocate-fits,
  allocate-keeps, allocate-AreInputs,
}
use jsrproxy.Common.Marks.{Covers, Covers-refl}
use jsrproxy.VersionAllocator.View.{AreInputs}
use jsrproxy.VersionAllocator.Rises.{allocate-returns}
use jsrproxy.PackageRegistry.{refresh_branches}
use jsrproxy.PackageRegistry.Refresh.{IsConsistentRegistry, Round, round, enter-allocator}

-- A loop that returned: its first call of `allocate`, and the rest of the loop.
pub record FirstRound (branch : SelectedBranch) (rest : List SelectedBranch)
    (refreshed result : Refreshed) : Type 0 where
  pub assignment : VersionAssignment
  pub allocator : VersionAllocator
  pub allocated :
      allocate refreshed.0.allocator branch.major branch.tip.sha branch.tip.committed_at
      ≡ ok (assignment, allocator)
  pub remaining : refresh_branches rest (enter branch assignment allocator refreshed) ≡ ok result

pub first_round :
    (branch : SelectedBranch) (rest : List SelectedBranch) (refreshed result : Refreshed)
    → refresh_branches (branch ∷ rest) refreshed ≡ ok result
    → FirstRound branch rest refreshed result
unfolding refresh_branches
first_round branch rest refreshed result h =
    let ((assignment, allocator), allocated, remaining) =
      >>=-eq-ok (allocate refreshed.0.allocator branch.major branch.tip.sha branch.tip.committed_at)
        _ h in
    record {
      assignment = assignment;
      allocator = allocator;
      allocated = allocated;
      remaining = remaining;
    }

pub refresh_branches-Rises :
    (branches : List SelectedBranch) (refreshed result : Refreshed)
    → refresh_branches branches refreshed ≡ ok result
    → Rises refreshed.0.allocator result.0.allocator
unfolding refresh_branches
refresh_branches-Rises [] refreshed result h = λ m.
    let same : refreshed ≡ result = cc in
    subst (λ r. Covers (high_water_of refreshed.0.allocator m) (high_water_of r.0.allocator m)) same
      (Covers-refl (high_water_of refreshed.0.allocator m))
refresh_branches-Rises (branch ∷ rest) refreshed result h =
    let first = first_round branch rest refreshed result h in
    let entered = enter branch first.assignment first.allocator refreshed in
    Rises-trans refreshed.0.allocator first.allocator result.0.allocator
      (allocate-Rises refreshed.0.allocator branch.major branch.tip.sha branch.tip.committed_at
        first.assignment first.allocator first.allocated)
      (subst (λ a. Rises a result.0.allocator)
        (enter-allocator branch first.assignment first.allocator refreshed)
        (refresh_branches-Rises rest entered result first.remaining))

module _ (branch : SelectedBranch) (rest : List SelectedBranch) (refreshed result : Refreshed)
    (consistent : IsConsistentRegistry refreshed.0) (safe : IsAllSafe result.0.allocator)
    (first : FirstRound branch rest refreshed result) where
  -- The first number is safe since the last marks are.
  pub first_fits : first.assignment.sequence ≤ max_safe_integer
  first_fits =
      allocate-fits refreshed.0.allocator branch.major branch.tip.sha branch.tip.committed_at
        first.assignment first.allocator consistent.valid first.allocated
        (Rises-IsAllSafe first.allocator result.0.allocator
          (subst (λ a. Rises a result.0.allocator)
            (enter-allocator branch first.assignment first.allocator refreshed)
            (refresh_branches-Rises rest (enter branch first.assignment first.allocator refreshed)
              result first.remaining))
          safe)

  pub first_Round : Round refreshed.0 (enter branch first.assignment first.allocator refreshed).0
  first_Round =
      round branch refreshed first.assignment first.allocator consistent first.allocated first_fits

-- The loop keeps records and assignments in correspondence, and every record that was there.
pub refresh_branches-Round :
    (branches : List SelectedBranch) (refreshed result : Refreshed)
    → IsConsistentRegistry refreshed.0
    → IsAllSafe result.0.allocator
    → refresh_branches branches refreshed ≡ ok result
    → Round refreshed.0 result.0
unfolding refresh_branches
refresh_branches-Round [] refreshed result consistent safe h =
    let same : refreshed ≡ result = cc in
    subst (λ r. Round refreshed.0 r.0) same
      (record { consistent = consistent; extends = λ v r e. e })
refresh_branches-Round (branch ∷ rest) refreshed result consistent safe h =
    let first = first_round branch rest refreshed result h in
    let one = first_Round branch rest refreshed result consistent safe first in
    let others =
      refresh_branches-Round rest (enter branch first.assignment first.allocator refreshed) result
        one.consistent safe first.remaining in
    record {
      consistent = others.consistent;
      extends = λ v r e. others.extends v r (one.extends v r e);
    }

-- What is assigned when the loop begins is assigned when it ends.
pub refresh_branches-keeps :
    (branches : List SelectedBranch) (refreshed result : Refreshed)
    → IsConsistentRegistry refreshed.0
    → IsAllSafe result.0.allocator
    → refresh_branches branches refreshed ≡ ok result
    → (m : ℕ) (s : Text) (a : VersionAssignment) → assignment_of refreshed.0.allocator m s ≡ some a
    → assignment_of result.0.allocator m s ≡ some a
unfolding refresh_branches
refresh_branches-keeps [] refreshed result consistent safe h m s a e =
    let same : refreshed ≡ result = cc in
    subst (λ r. assignment_of r.0.allocator m s ≡ some a) same e
refresh_branches-keeps (branch ∷ rest) refreshed result consistent safe h m s a e =
    let first = first_round branch rest refreshed result h in
    let one = first_Round branch rest refreshed result consistent safe first in
    refresh_branches-keeps rest (enter branch first.assignment first.allocator refreshed) result
      one.consistent safe first.remaining m s a
      (subst (λ al. assignment_of al m s ≡ some a)
        (sym (enter-allocator branch first.assignment first.allocator refreshed))
        (allocate-keeps refreshed.0.allocator branch.major branch.tip.sha branch.tip.committed_at
          first.assignment first.allocator consistent.valid first.allocated m s a e))

-- A branch that is assigned, on inputs that `allocate` accepts.
pub record IsAssigned (allocator : VersionAllocator) (branch : SelectedBranch) : Type 0 where
  pub assignment : VersionAssignment
  pub assigned : assignment_of allocator branch.major branch.tip.sha ≡ some assignment
  pub inputs : AreInputs branch.major branch.tip.sha branch.tip.committed_at

-- Every branch of the loop is assigned when it ends.
pub refresh_branches-IsAssigned :
    (branches : List SelectedBranch) (refreshed result : Refreshed)
    → IsConsistentRegistry refreshed.0
    → IsAllSafe result.0.allocator
    → refresh_branches branches refreshed ≡ ok result
    → (branch : SelectedBranch) → In branch branches
    → IsAssigned result.0.allocator branch
refresh_branches-IsAssigned [] refreshed result consistent safe h branch m = absurd (not-In-nil m)
refresh_branches-IsAssigned (b ∷ rest) refreshed result consistent safe h branch m =
    elim (In-cons_cases m) [
      | inl same ↦ subst (IsAssigned result.0.allocator) (sym same) (record {
        assignment = first.assignment;
        assigned =
            refresh_branches-keeps rest entered result one.consistent safe first.remaining b.major
              b.tip.sha first.assignment
              (subst (λ al. assignment_of al b.major b.tip.sha ≡ some first.assignment)
                (sym (enter-allocator b first.assignment first.allocator refreshed)) at_first);
        inputs =
            allocate-AreInputs refreshed.0.allocator b.major b.tip.sha b.tip.committed_at
              first.assignment first.allocator first.allocated;
      })
      | inr later ↦
          refresh_branches-IsAssigned rest entered result one.consistent safe first.remaining branch
            later
    ]
  where
    first : FirstRound b rest refreshed result
    first = first_round b rest refreshed result h

    one : Round refreshed.0 (enter b first.assignment first.allocator refreshed).0
    one = first_Round b rest refreshed result consistent safe first

    entered : Refreshed
    entered = enter b first.assignment first.allocator refreshed

    at_first : assignment_of first.allocator b.major b.tip.sha ≡ some first.assignment
    at_first =
        allocate-returns refreshed.0.allocator b.major b.tip.sha b.tip.committed_at first.assignment
          first.allocator consistent.valid first.allocated
