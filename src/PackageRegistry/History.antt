-- ===== src/PackageRegistry/History.antt =====
-- Runs of the methods of src/package-registry.ts: what is published stays published.
use jsrproxy.Common.{ℕ, ◌≡◌, refl, sym, ap, subst, ◌∙◌, Bool, some, List, Text, text_eq, nat_eq, ok}
use jsrproxy.Common.Map.{get}
use jsrproxy.PackageRegistry.Records.{State, MaterializationJob, VersionRecord, PackageRegistry}
use jsrproxy.Branches.{BranchDiscovery}
use jsrproxy.VersionAllocator.Rises.{IsAllSafe}
use jsrproxy.PackageRegistry.{refresh}
use jsrproxy.PackageRegistry.Refresh.{IsConsistentRegistry}
use jsrproxy.PackageRegistry.Records.{TombstoneDiagnostic, pending, leased, ready, yanked}
use jsrproxy.PackageRegistry.{mark_ready, mark_yanked, release_lease, lease_next}
use jsrproxy.PackageRegistry.Changes.{IsOpen, SameIdentity, Changes}
use jsrproxy.PackageRegistry.Refreshing.{refresh-Round}
use jsrproxy.PackageRegistry.{recover_version}
use jsrproxy.PackageRegistry.Changes.{
  Changes-IsConsistent, Follows, same, changed, Evolves, Changes-Evolves, Extends-Evolves,
}
use jsrproxy.PackageRegistry.Methods.{
  mark_ready-Changes, mark_yanked-Changes, release_lease-Changes,
}
use jsrproxy.PackageRegistry.Leases.{lease_next-Changes}
use jsrproxy.PackageRegistry.Recovery.{IsPublished, recover_version-Round}

-- One call of a method that returned. A call that throws is no step: its registry is dropped.
pub data Step (le : Text → Text → Bool) (before after : PackageRegistry) : Type 0 where
  refreshes :
      (discovery : BranchDiscovery) (created : List MaterializationJob)
      → refresh before discovery ≡ ok (after, created)
      → Step le before after
  recovers :
      (version reason : Text) (recovered_at : ℕ) (job : MaterializationJob)
      → recover_version before version reason recovered_at ≡ ok (after, job)
      → Step le before after
  leases :
      (now : ℕ) (job : MaterializationJob)
      → lease_next le before now ≡ (after, some job)
      → Step le before after
  releases : (version : Text) → release_lease before version ≡ ok after → Step le before after
  readies : (version : Text) → mark_ready before version ≡ ok after → Step le before after
  yanks :
      (version : Text) (diagnostic : TombstoneDiagnostic)
      → mark_yanked before version diagnostic ≡ ok after
      → Step le before after

-- Calls in turn, while every sequence number stays a safe integer.
pub data Reach (le : Text → Text → Bool) (first : PackageRegistry) : PackageRegistry → Type 0 where
  start : Reach le first first
  next :
      {before after : PackageRegistry}
      → Reach le first before
      → Step le before after
      → IsAllSafe after.allocator
      → Reach le first after

-- What one step keeps.
pub record Kept (before after : PackageRegistry) : Type 0 where
  pub consistent : IsConsistentRegistry after
  pub evolves : Evolves before after

of_Changes :
    (before after : PackageRegistry)
    → IsConsistentRegistry before
    → Changes before after
    → Kept before after
of_Changes before after consistent changes = record {
  consistent = Changes-IsConsistent before after consistent changes;
  evolves = Changes-Evolves before after changes;
}

pub Step-Kept :
    (le : Text → Text → Bool) {before after : PackageRegistry}
    → IsConsistentRegistry before
    → IsAllSafe after.allocator
    → Step le before after
    → Kept before after
Step-Kept le {before} {after} consistent safe (refreshes discovery created h) =
    let (kept, extends) = refresh-Round before discovery (after, created) consistent safe h in
    record { consistent = kept; evolves = Extends-Evolves before after extends }
Step-Kept le {before} {after} consistent safe (recovers version reason recovered_at job h) =
    let round =
      recover_version-Round before version reason recovered_at (after, job) consistent safe h in
    record { consistent = round.consistent; evolves = Extends-Evolves before after round.extends }
Step-Kept le {before} {after} consistent safe (leases now job h) =
    of_Changes before after consistent (lease_next-Changes le before now consistent after job h)
Step-Kept le {before} {after} consistent safe (releases version h) =
    of_Changes before after consistent (release_lease-Changes before version after consistent h)
Step-Kept le {before} {after} consistent safe (readies version h) =
    of_Changes before after consistent (mark_ready-Changes before version after consistent h)
Step-Kept le {before} {after} consistent safe (yanks version diagnostic h) =
    of_Changes before after consistent
      (mark_yanked-Changes before version diagnostic after consistent h)

-- Any calls that return, while all sequence numbers stay safe integers, keep records and
-- assignments in correspondence.
pub Reach-IsConsistent :
    (le : Text → Text → Bool) {first last : PackageRegistry}
    → IsConsistentRegistry first
    → Reach le first last
    → IsConsistentRegistry last
Reach-IsConsistent le consistent start = consistent
Reach-IsConsistent le consistent (next reach step safe) =
    (Step-Kept le (Reach-IsConsistent le consistent reach) safe step).consistent

SameIdentity-trans :
    (a b c : VersionRecord) → SameIdentity a b → SameIdentity b c → SameIdentity a c
SameIdentity-trans a b c p q = record {
  branch = q.branch ∙ p.branch;
  commit_sha = q.commit_sha ∙ p.commit_sha;
  major = q.major ∙ p.major;
  version = q.version ∙ p.version;
  assignment = q.assignment ∙ p.assignment;
}

Follows-SameIdentity : {a b : VersionRecord} → Follows a b → SameIdentity a b
Follows-SameIdentity {a} (same e) =
    subst (SameIdentity a) (sym e)
      (record { branch = refl; commit_sha = refl; major = refl; version = refl; assignment = refl })
Follows-SameIdentity (changed o identity) = identity

-- A record under its version, for the same branch, commit and assignment as before.
pub record Remains (registry : PackageRegistry) (version : Text) (old : VersionRecord)
    : Type 0 where
  pub new : VersionRecord
  pub found : get registry.versions version ≡ some new
  pub identity : SameIdentity old new

-- From a registry whose records and assignments correspond, no calls that return, while all
-- sequence numbers stay safe integers, drop a version or give it to another branch, commit or
-- assignment.
pub Reach-Remains :
    (le : Text → Text → Bool) {first last : PackageRegistry} (version : Text) (old : VersionRecord)
    → IsConsistentRegistry first
    → Reach le first last
    → get first.versions version ≡ some old
    → Remains last version old
Reach-Remains le version old consistent start e = record {
  new = old;
  found = e;
  identity = record {
    branch = refl;
    commit_sha = refl;
    major = refl;
    version = refl;
    assignment = refl;
  };
}
Reach-Remains le version old consistent (next reach step safe) e =
    let so_far = Reach-Remains le version old consistent reach e in
    let becomes =
      (Step-Kept le (Reach-IsConsistent le consistent reach) safe step).evolves version so_far.new
        so_far.found in
    record {
      new = becomes.new;
      found = becomes.found;
      identity =
          SameIdentity-trans old so_far.new becomes.new so_far.identity
            (Follows-SameIdentity becomes.follows);
    }

published-not-IsOpen : (s : State) → IsPublished s → ¬ IsOpen s
published-not-IsOpen pending p o = p
published-not-IsOpen leased p o = p
published-not-IsOpen ready p o = o
published-not-IsOpen yanked p o = o

pub Follows-published : {a b : VersionRecord} → IsPublished a.state → Follows a b → b ≡ a
Follows-published p (same e) = e
Follows-published {a} p (changed o identity) = absurd (published-not-IsOpen a.state p o)

-- From a registry whose records and assignments correspond, once a version is ready or yanked,
-- no calls that return, while all sequence numbers stay safe integers, change anything of its
-- record.
pub Reach-published :
    (le : Text → Text → Bool) {first last : PackageRegistry} (version : Text) (r : VersionRecord)
    → IsConsistentRegistry first
    → Reach le first last
    → get first.versions version ≡ some r
    → IsPublished r.state
    → get last.versions version ≡ some r
Reach-published le version r consistent start e published = e
Reach-published le version r consistent (next reach step safe) e published =
    let becomes =
      (Step-Kept le (Reach-IsConsistent le consistent reach) safe step).evolves version r
        (Reach-published le version r consistent reach e published) in
    becomes.found ∙ ap some (Follows-published published becomes.follows)
