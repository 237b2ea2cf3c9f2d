-- ===== src/PackageRegistry/Recovery.antt =====
-- `recoverVersion` of src/package-registry.ts.
use jsrproxy.Common.{
  ℕ, ◌+◌, ◌≤◌, ◌≡◌, sym, ap, subst, ◌∙◌, inl, inr, true, none, some, [], ◌∷◌, ◌++◌, Text,
  max_safe_integer, text_eq, nat_eq, Bool-cases, Option-cases, ok,
}
use jsrproxy.Common.Map.{get, set}
use jsrproxy.VersionAllocator.{VersionAssignment, VersionAllocator}
use jsrproxy.VersionAllocator.View.{allocations_of}
use jsrproxy.VersionAllocator.Calls.{recover_cases}
use jsrproxy.VersionAllocator.Laws.{IsNext-suc}
use jsrproxy.PackageRegistry.Records.{State, MaterializationJob, VersionRecord, PackageRegistry}
use jsrproxy.PackageRegistry.{pending_record}
use jsrproxy.Common.{>>=-eq-ok}
use jsrproxy.VersionAllocator.Rises.{IsAllSafe}
use jsrproxy.PackageRegistry.Consistency.{added_absent, added-IsConsistent}
use jsrproxy.PackageRegistry.Refresh.{IsConsistentRegistry, Round}
use jsrproxy.Common.{◌||◌}
use jsrproxy.PackageRegistry.Records.{pending, leased, ready, yanked, is_ready, is_yanked}
use jsrproxy.PackageRegistry.{copy_job}
use jsrproxy.VersionAllocator.{recover}
use jsrproxy.VersionAllocator.Rises.{recover-fits}
use jsrproxy.PackageRegistry.Records.{RecoveryAudit}
use jsrproxy.PackageRegistry.{recover_version}
use jsrproxy.PackageRegistry.Refresh.{Extends-set}

-- A published record.
abbrev pub IsPublished : State → Type 0
IsPublished pending = ⊥
IsPublished leased = ⊥
IsPublished ready = Unit
IsPublished yanked = Unit

published_of_test : (s : State) → (is_ready s || is_yanked s) ≡ true → IsPublished s
published_of_test pending h = cc
published_of_test leased h = cc
published_of_test ready h = tt
published_of_test yanked h = tt

abbrev pub Recovery : Type 0
Recovery = PackageRegistry × MaterializationJob

abbrev pub audit : Text → Text → Text → ℕ → RecoveryAudit
audit original replacement reason recovered_at = record {
  original_version = original;
  replacement_version = replacement;
  reason = reason;
  recovered_at = recovered_at;
}

-- The registry and the job that a recovery leaves.
abbrev pub recovered :
    PackageRegistry
    → Text
    → Text
    → ℕ
    → VersionRecord
    → VersionAssignment
    → VersionAllocator
    → Recovery
recovered registry version reason recovered_at old assignment allocator =
    let replacement = pending_record assignment old.branch old.commit_sha old.major in
    (
      record registry {
        allocator = allocator;
        versions = set registry.versions replacement.version replacement;
        recoveries =
            registry.recoveries ++ audit version replacement.version reason recovered_at ∷ [];
      },
      copy_job replacement,
    )

-- What a recovery that returned has done.
pub record Recovers (registry : PackageRegistry) (version reason : Text) (recovered_at : ℕ)
    (result : Recovery) : Type 0 where
  pub old : VersionRecord
  pub found : get registry.versions version ≡ some old
  pub published : IsPublished old.state
  pub assignment : VersionAssignment
  pub allocator : VersionAllocator
  pub reassigned :
      recover registry.allocator old.major old.commit_sha old.assignment.sequence
      ≡ ok (assignment, allocator)
  pub result_eq : result ≡ recovered registry version reason recovered_at old assignment allocator

module _ (registry : PackageRegistry) (version reason : Text) (recovered_at : ℕ)
    (result : Recovery) where
  pub recover_version-Recovers :
      recover_version registry version reason recovered_at ≡ ok result
      → Recovers registry version reason recovered_at result
  unfolding recover_version
  recover_version-Recovers h = elim (Option-cases (get registry.versions version)) [
    | inl e ↦ let thrown = rw e at h in absurd (cc)
    | inr (old, e) ↦
        let tested = rw e at h in
        elim (Bool-cases (is_ready old.state || is_yanked old.state)) [
          | inl test ↦
              let rest = rw test at tested in
              let ((assignment, allocator), reassigned, returned) =
                >>=-eq-ok
                  (recover registry.allocator old.major old.commit_sha old.assignment.sequence) _
                  rest in
              record {
                old = old;
                found = e;
                published = published_of_test old.state test;
                assignment = assignment;
                allocator = allocator;
                reassigned = reassigned;
                result_eq = cc;
              }
          | inr test ↦ let thrown = rw test at tested in absurd (cc)
        ]
  ]

  module _ (consistent : IsConsistentRegistry registry) (safe : IsAllSafe result.0.allocator)
      (h : recover_version registry version reason recovered_at ≡ ok result) where
    parts : Recovers registry version reason recovered_at result
    parts = recover_version-Recovers h

    allocator_eq : result.0.allocator ≡ parts.allocator
    allocator_eq = ap (λ r. r.0.allocator) parts.result_eq

    fits : parts.assignment.sequence ≤ max_safe_integer
    fits =
        recover-fits registry.allocator parts.old.major parts.old.commit_sha
          parts.old.assignment.sequence parts.assignment parts.allocator parts.reassigned
          (subst IsAllSafe allocator_eq safe)

    -- Whether the version of the replacement is new.
    absent : get registry.versions parts.assignment.version ≡ none
    absent =
        let (n, current, appends) =
          recover_cases registry.allocator parts.old.major parts.old.commit_sha
            parts.old.assignment.sequence parts.assignment parts.allocator parts.reassigned in
        added_absent registry.allocator registry.versions consistent parts.old.major
          parts.old.commit_sha parts.old.assignment.sequence (n + 1) parts.assignment
          parts.allocator appends
          (IsNext-suc (allocations_of registry.allocator parts.old.major) parts.old.commit_sha n
            current)

    -- A recovery keeps every record, the recovered one included, and the correspondence.
    pub recover_version-Round : Round registry result.0
    recover_version-Round =
        let (n, current, appends) =
          recover_cases registry.allocator parts.old.major parts.old.commit_sha
            parts.old.assignment.sequence parts.assignment parts.allocator parts.reassigned in
        let next =
          IsNext-suc (allocations_of registry.allocator parts.old.major) parts.old.commit_sha n
            current in
        subst (λ r. Round registry r.0) (sym parts.result_eq)
          (record {
            consistent =
                added-IsConsistent registry.allocator registry.versions consistent parts.old.major
                  parts.old.commit_sha parts.old.assignment.sequence (n + 1) parts.assignment
                  parts.allocator appends next parts.old.branch fits;
            extends = Extends-set registry.versions parts.assignment.version _ absent;
          })

    -- A recovery that returned, of a registry whose records and assignments correspond and with
    -- sequence numbers that are safe integers, was of a published version. It makes a pending
    -- job for the same commit, major and branch under a version that the registry did not have,
    -- leaves the old record as it is, and adds one entry to the audit.
    pub recover_version-replaces :
        (old : VersionRecord)
        → get registry.versions version ≡ some old
        → IsPublished old.state
          × (result.1.state ≡ pending)
          × (result.1.commit_sha ≡ old.commit_sha)
          × (result.1.major ≡ old.major)
          × (result.1.branch ≡ old.branch)
          × (get registry.versions result.1.version ≡ none)
          × (get result.0.versions version ≡ some old)
          × (result.0.recoveries
              ≡ registry.recoveries ++ audit version result.1.version reason recovered_at ∷ [])
    recover_version-replaces old found =
        let is_old : parts.old ≡ old = cc (found, parts.found) in
        let job = ap (λ r. r.1) parts.result_eq in
        let new_version = ap (λ j. j.version) job in
        (
          subst (λ r. IsPublished r.state) is_old parts.published,
          ap (λ j. j.state) job,
          ap (λ j. j.commit_sha) job ∙ ap (λ r. r.commit_sha) is_old,
          ap (λ j. j.major) job ∙ ap (λ r. r.major) is_old,
          ap (λ j. j.branch) job ∙ ap (λ r. r.branch) is_old,
          ap (get registry.versions) new_version ∙ absent,
          recover_version-Round.extends version old found,
          ap (λ r. r.0.recoveries) parts.result_eq
              ∙ ap (λ v. registry.recoveries ++ audit version v reason recovered_at ∷ [])
                  (sym new_version),
        )
