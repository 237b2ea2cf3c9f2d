-- ===== src/PackageRegistry/Examples.antt =====
-- The laws of src/package-registry.ts at a package with a release branch and a default branch.
use jsrproxy.Common.{
  ℕ, zero, suc, ◌+◌, ◌≤◌, ◌<◌, ◌≡◌, ◌↔◌, ◌≢◌, ◌⊎◌, refl, sym, subst, inl, inr, arith, Bool, true,
  false, Bool-cases, Option, none, some, List, [], ◌∷◌, ◌++◌, Text, codes, Result, ok, err,
  cannot_transition, not_leased, ◌==◌, if◌then◌else◌, leb, here, there, In, text_eq, nat_eq,
  nat_beq_iff,
}
use jsrproxy.Common.Decimal.{decimal, number}
use jsrproxy.Common.Map.{get, set}
use jsrproxy.Common.Sorting.{IsTotalOrder}
use jsrproxy.Branches.{
  BranchDiscovery, BranchSelection, SelectedBranch, select_branches, release_major, collect, visit,
  same_commit_release, with_default, default_major,
}
use jsrproxy.VersionAllocator.{
  VersionAssignment, MajorAllocations, VersionAllocator, no_allocations, key, version_text,
  validate_inputs, for_major, after_high_water, appended, append, allocate, recover,
}
use jsrproxy.VersionAllocator.Ledger.{IsSafe}
use jsrproxy.VersionAllocator.View.{allocations_of}
use jsrproxy.VersionAllocator.Rises.{IsAllSafe}
use jsrproxy.PackageRegistry.Records.{
  PackageName, TombstoneDiagnostic, pending, leased, ready, VersionRecord, PackageRegistry,
}
use jsrproxy.PackageRegistry.{
  new_registry, pending_record, with_state, copy_job, refresh, refresh_branches, enter, Refreshed,
  require_pending, mark_ready, mark_yanked, release_lease, is_available, next_job, lease_next,
  recover_version, meta, meta_versions,
}
use jsrproxy.PackageRegistry.Consistency.{new_registry-IsConsistent}
use jsrproxy.PackageRegistry.Refresh.{IsConsistentRegistry}
use jsrproxy.PackageRegistry.Refreshing.{IsEntered, refresh-Round, refresh-IsEntered, refresh_again}
use jsrproxy.PackageRegistry.Methods.{mark_ready_once}
use jsrproxy.PackageRegistry.Leases.{IsCandidate, IsTaken, next_job-none, lease_next-first}
use jsrproxy.PackageRegistry.Exclusion.{lease_next-exclusive}
use jsrproxy.PackageRegistry.Recovery.{IsPublished, audit, recover_version-replaces}
use jsrproxy.PackageRegistry.History.{
  Reach, start, next, readies, recovers, leases, Reach-IsConsistent, Remains, Reach-Remains,
  Reach-published,
}
use jsrproxy.PackageRegistry.Meta.{listed, get-meta, meta-monotone}

abbrev name : PackageName
name = record { scope = codes "acme"; name = codes "tool" }

abbrev discovery : BranchDiscovery
discovery = record {
  default_branch = codes "main";
  branches =
      (codes "main", record { sha = codes "ab"; committed_at = 100 })
      ∷ (codes "v1", record { sha = codes "cd"; committed_at = 200 })
      ∷ [];
}

abbrev v1_assignment : VersionAssignment
v1_assignment = record {
  major = 1;
  sequence = 200;
  attempt = 0;
  commit_sha = codes "cd";
  version = codes "1.1.200";
}

abbrev main_assignment : VersionAssignment
main_assignment = record {
  major = 2;
  sequence = 100;
  attempt = 0;
  commit_sha = codes "ab";
  version = codes "2.1.100";
}

abbrev v1_record : VersionRecord
v1_record = pending_record v1_assignment (codes "v1") (codes "cd") 1

abbrev main_record : VersionRecord
main_record = pending_record main_assignment (codes "main") (codes "ab") 2

abbrev allocator : VersionAllocator
allocator = record {
  majors =
      (
        1,
        record {
          high_water = some 200;
          assignments = (codes "cd" ++ 0 ∷ codes "0", v1_assignment) ∷ [];
          current_attempts = (codes "cd", 0) ∷ [];
        },
      )
      ∷ (
        2,
        record {
          high_water = some 100;
          assignments = (codes "ab" ++ 0 ∷ codes "0", main_assignment) ∷ [];
          current_attempts = (codes "ab", 0) ∷ [];
        },
      )
      ∷ [];
}

-- The registry after the refresh, with these records.
abbrev registry_of : VersionRecord → VersionRecord → PackageRegistry
registry_of v1 main = record {
  allocator = allocator;
  versions = (codes "1.1.200", v1) ∷ (codes "2.1.100", main) ∷ [];
  recoveries = [];
  name = name;
  branches = record { highest_observed_release_major = some 1 };
}

abbrev refreshed : PackageRegistry
refreshed = registry_of v1_record main_record

abbrev result : Refreshed
result = (refreshed, copy_job v1_record ∷ copy_job main_record ∷ [])

refreshes_to : refresh (new_registry name) discovery ≡ ok result
unfolding refresh refresh_branches enter allocate validate_inputs for_major append appended
    after_high_water key version_text select_branches collect visit release_major
    same_commit_release with_default default_major number decimal get set jsrproxy.Common.text_beq
    jsrproxy.Common.filter jsrproxy.Common.sort_by
refreshes_to = refl

-- A third major has no assignments.
unlisted :
    (one two : MajorAllocations) (major : ℕ)
    → allocations_of (record { majors = (1, one) ∷ (2, two) ∷ [] }) (suc (suc (suc major)))
      ≡ no_allocations
unfolding allocations_of get
unlisted one two major = ground arith

allocator-IsAllSafe : IsAllSafe allocator
unfolding allocations_of get
allocator-IsAllSafe zero = tt
allocator-IsAllSafe (suc zero) = omega arith
allocator-IsAllSafe (suc (suc zero)) = omega arith
allocator-IsAllSafe (suc (suc (suc major))) =
    subst (λ a. IsSafe a.high_water) (sym (unlisted _ _ major)) tt

refreshed-IsConsistent : IsConsistentRegistry refreshed
refreshed-IsConsistent =
    (refresh-Round (new_registry name) discovery result new_registry-IsConsistent
      allocator-IsAllSafe refreshes_to).0

refresh_again_example : refresh refreshed discovery ≡ ok (refreshed, [])
refresh_again_example =
    refresh_again (new_registry name) discovery result new_registry-IsConsistent allocator-IsAllSafe
      refreshes_to

abbrev v1_branch : SelectedBranch
v1_branch = record {
  branch = codes "v1";
  major = 1;
  tip = record { sha = codes "cd"; committed_at = 200 };
}

abbrev main_branch : SelectedBranch
main_branch = record {
  branch = codes "main";
  major = 2;
  tip = record { sha = codes "ab"; committed_at = 100 };
}

abbrev selection : BranchSelection
selection = record { state = refreshed.branches; branches = v1_branch ∷ main_branch ∷ [] }

selected : select_branches discovery (new_registry name).branches ≡ ok selection
unfolding select_branches collect visit release_major same_commit_release with_default default_major
    number get jsrproxy.Common.text_beq jsrproxy.Common.filter jsrproxy.Common.sort_by
selected = refl

refresh-IsEntered_example : IsEntered refreshed v1_branch
refresh-IsEntered_example =
    refresh-IsEntered (new_registry name) discovery result selection new_registry-IsConsistent
      allocator-IsAllSafe refreshes_to selected v1_branch here

-- An order of the texts: by their code units in turn.
text_le : Text → Text → Bool
text_le [] t = true
text_le (c ∷ s) [] = false
text_le (c ∷ s) (d ∷ t) = if c == d then text_le s t else leb c d

text_le-total : (s t : Text) → (text_le s t ≡ true) ⊎ (text_le t s ≡ true)
unfolding text_le
text_le-total [] t = inl refl
text_le-total (c ∷ s) [] = inr refl
text_le-total (c ∷ s) (d ∷ t) = ground (arith, text_le-total s t, nat_beq_iff c d, nat_beq_iff d c)

text_le_trans : (s t u : Text) → text_le s t ≡ true → text_le t u ≡ true → text_le s u ≡ true
unfolding text_le
text_le_trans [] t u p q = refl
text_le_trans (c ∷ s) [] u p q = ground arith
text_le_trans (c ∷ s) (d ∷ t) [] p q = ground arith
text_le_trans (c ∷ s) (d ∷ t) (e ∷ u) p q =
    ground (arith, text_le_trans s t u, nat_beq_iff c d, nat_beq_iff d e, nat_beq_iff c e)

text_le-IsTotalOrder : IsTotalOrder text_le
text_le-IsTotalOrder = record { total = text_le-total; trans = text_le_trans }

-- The lease of v1 at 1000, then of main at 1500.
abbrev v1_leased : PackageRegistry
v1_leased = registry_of (with_state v1_record leased (some 1_000)) main_record

abbrev both_leased : PackageRegistry
both_leased =
    registry_of (with_state v1_record leased (some 1_000))
      (with_state main_record leased (some 1_500))

leases_v1 :
    lease_next text_le refreshed 1_000
    ≡ (v1_leased, some (copy_job (with_state v1_record leased (some 1_000))))
unfolding lease_next next_job is_available text_le set jsrproxy.Common.text_beq
    jsrproxy.Common.filter jsrproxy.Common.sort_by
leases_v1 = refl

leases_main :
    lease_next text_le v1_leased 1_500
    ≡ (both_leased, some (copy_job (with_state main_record leased (some 1_500))))
unfolding lease_next next_job is_available text_le set jsrproxy.Common.text_beq
    jsrproxy.Common.filter jsrproxy.Common.sort_by
leases_main = refl

lease_next-exclusive_example : codes "2.1.100" ≢ codes "1.1.200"
lease_next-exclusive_example =
    lease_next-exclusive text_le refreshed v1_leased both_leased 1_000 1_500
      (copy_job (with_state v1_record leased (some 1_000)))
      (copy_job (with_state main_record leased (some 1_500))) refreshed-IsConsistent leases_v1
      leases_main (omega arith)

main-IsCandidate : IsCandidate refreshed 1_000 main_record
unfolding get is_available jsrproxy.Common.text_beq
main-IsCandidate = record { found = refl; available = refl }

lease_next-first_example : text_le (codes "1.1.200") (codes "2.1.100") ≡ true
lease_next-first_example =
    lease_next-first text_le refreshed 1_000 refreshed-IsConsistent v1_leased
      (copy_job (with_state v1_record leased (some 1_000))) text_le-IsTotalOrder leases_v1
      main_record main-IsCandidate

main_1500 : VersionRecord
main_1500 = with_state main_record leased (some 1_500)

-- The two leases as calls in turn.
to_v1_leased : Reach text_le refreshed v1_leased
to_v1_leased = next start (leases 1_000 _ leases_v1) allocator-IsAllSafe

to_both_leased : Reach text_le refreshed both_leased
to_both_leased = next to_v1_leased (leases 1_500 _ leases_main) allocator-IsAllSafe

both_leased-IsConsistent : IsConsistentRegistry both_leased
both_leased-IsConsistent = Reach-IsConsistent text_le refreshed-IsConsistent to_both_leased

Reach-IsConsistent_example : IsConsistentRegistry both_leased
Reach-IsConsistent_example = Reach-IsConsistent text_le refreshed-IsConsistent to_both_leased

v1-found : get refreshed.versions (codes "1.1.200") ≡ some v1_record
unfolding get jsrproxy.Common.text_beq
v1-found = refl

Reach-Remains_example : Remains both_leased (codes "1.1.200") v1_record
Reach-Remains_example =
    Reach-Remains text_le (codes "1.1.200") v1_record refreshed-IsConsistent to_both_leased v1-found

none_left : next_job text_le both_leased 2_000 ≡ none
unfolding next_job is_available jsrproxy.Common.filter jsrproxy.Common.sort_by
none_left = refl

next_job-none_example :
    (next_job text_le both_leased 2_000 ≡ none)
    ↔ ((r : VersionRecord) → get both_leased.versions r.version ≡ some r → IsTaken 2_000 r)
next_job-none_example = next_job-none text_le both_leased 2_000 both_leased-IsConsistent

-- Version 1.1.200 published, and then recovered as 1.1.201.
abbrev v1_ready : VersionRecord
v1_ready = with_state v1_record ready none

abbrev published : PackageRegistry
published = registry_of v1_ready main_record

publishes : mark_ready refreshed (codes "1.1.200") ≡ ok published
unfolding mark_ready require_pending get set jsrproxy.Common.text_beq
publishes = refl

abbrev diagnostic : TombstoneDiagnostic
diagnostic = record { id = codes "d"; failure_class = codes "build"; message = codes "no" }

mark_ready_twice :
    (mark_ready published (codes "1.1.200")
      ≡ err (cannot_transition (codes "1.1.200") (codes "ready")))
    × (mark_yanked published (codes "1.1.200") diagnostic
        ≡ err (cannot_transition (codes "1.1.200") (codes "ready")))
    × (release_lease published (codes "1.1.200") ≡ err (not_leased (codes "1.1.200")))
mark_ready_twice = mark_ready_once refreshed (codes "1.1.200") diagnostic published publishes

published-IsConsistent : IsConsistentRegistry published
published-IsConsistent =
    Reach-IsConsistent text_le refreshed-IsConsistent
      (next start (readies (codes "1.1.200") publishes) allocator-IsAllSafe)

abbrev again_assignment : VersionAssignment
again_assignment = record {
  major = 1;
  sequence = 201;
  attempt = 1;
  commit_sha = codes "cd";
  version = codes "1.1.201";
}

abbrev again_record : VersionRecord
again_record = pending_record again_assignment (codes "v1") (codes "cd") 1

abbrev again_allocator : VersionAllocator
again_allocator = record {
  majors =
      (
        1,
        record {
          high_water = some 201;
          assignments =
              (codes "cd" ++ 0 ∷ codes "0", v1_assignment)
              ∷ (codes "cd" ++ 0 ∷ codes "1", again_assignment)
              ∷ [];
          current_attempts = (codes "cd", 1) ∷ [];
        },
      )
      ∷ (
        2,
        record {
          high_water = some 100;
          assignments = (codes "ab" ++ 0 ∷ codes "0", main_assignment) ∷ [];
          current_attempts = (codes "ab", 0) ∷ [];
        },
      )
      ∷ [];
}

again_allocator-IsAllSafe : IsAllSafe again_allocator
unfolding allocations_of get
again_allocator-IsAllSafe zero = tt
again_allocator-IsAllSafe (suc zero) = omega arith
again_allocator-IsAllSafe (suc (suc zero)) = omega arith
again_allocator-IsAllSafe (suc (suc (suc major))) =
    subst (λ a. IsSafe a.high_water) (sym (unlisted _ _ major)) tt

abbrev recovered_registry : PackageRegistry
recovered_registry = record {
  allocator = again_allocator;
  versions =
      (codes "1.1.200", v1_ready)
      ∷ (codes "2.1.100", main_record)
      ∷ (codes "1.1.201", again_record)
      ∷ [];
  recoveries = audit (codes "1.1.200") (codes "1.1.201") (codes "lost") 5_000 ∷ [];
  name = name;
  branches = record { highest_observed_release_major = some 1 };
}

recovers_v1 :
    recover_version published (codes "1.1.200") (codes "lost") 5_000
    ≡ ok (recovered_registry, copy_job again_record)
unfolding recover_version recover validate_inputs for_major append appended after_high_water key
    version_text decimal get set jsrproxy.Common.text_beq
recovers_v1 = refl

to_recovered : Reach text_le published recovered_registry
to_recovered =
    next start (recovers (codes "1.1.200") (codes "lost") 5_000 _ recovers_v1)
      again_allocator-IsAllSafe

ready-found : get published.versions (codes "1.1.200") ≡ some v1_ready
unfolding get jsrproxy.Common.text_beq
ready-found = refl

Reach-published_example : get recovered_registry.versions (codes "1.1.200") ≡ some v1_ready
Reach-published_example =
    Reach-published text_le (codes "1.1.200") v1_ready published-IsConsistent to_recovered
      ready-found tt

recover_version-replaces_example :
    IsPublished ready
    × (pending ≡ pending)
    × (codes "cd" ≡ codes "cd")
    × (again_record.major ≡ v1_ready.major)
    × (codes "v1" ≡ codes "v1")
    × (get published.versions (codes "1.1.201") ≡ none)
    × (get recovered_registry.versions (codes "1.1.200") ≡ some v1_ready)
    × (recovered_registry.recoveries
        ≡ [] ++ audit (codes "1.1.200") (codes "1.1.201") (codes "lost") 5_000 ∷ [])
recover_version-replaces_example =
    recover_version-replaces published (codes "1.1.200") (codes "lost") 5_000
      (recovered_registry, copy_job again_record) published-IsConsistent again_allocator-IsAllSafe
      recovers_v1 v1_ready ready-found

get-meta_example :
    get (meta published).versions (codes "2.1.100")
    ≡ listed (get published.versions (codes "2.1.100")) none
get-meta_example = get-meta published (codes "2.1.100") published-IsConsistent

v1-listed : get (meta published).versions (codes "1.1.200") ≡ some (record { yanked = false })
unfolding meta meta_versions get set jsrproxy.Common.text_beq
v1-listed = refl

meta-monotone_example :
    get (meta recovered_registry).versions (codes "1.1.200") ≡ some (record { yanked = false })
meta-monotone_example =
    meta-monotone text_le (codes "1.1.200") (record { yanked = false }) published-IsConsistent
      to_recovered v1-listed
