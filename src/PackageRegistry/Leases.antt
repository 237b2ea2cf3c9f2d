-- ===== src/PackageRegistry/Leases.antt =====
-- `leaseNext` of src/package-registry.ts: which job is leased, and to how many.
use jsrproxy.Common.{
  ℕ, ◌+◌, ◌≡◌, ◌↔◌, ◌⊎◌, ◌<◌, refl, arith, sym, ap, subst, ◌∙◌, inl, inr, true, false, Bool, Option,
  none, some, Text, text_eq, nat_eq, Bool-cases, Option-cases,
}
use jsrproxy.Common.Map.{get}
use jsrproxy.PackageRegistry.Records.{State, MaterializationJob, VersionRecord, PackageRegistry}
use jsrproxy.Common.{In, not-In-nil}
use jsrproxy.PackageRegistry.Refresh.{IsConsistentRegistry}
use jsrproxy.Common.{◌||◌, ◌&&◌, filter, leb}
use jsrproxy.Common.Map.{values, In-get, In-values_key, get-In-values}
use jsrproxy.Common.Sorting.{
  In-filter_to, In-filter_from, head-sort_by-In, sort_by-none, IsTotalOrder, head-sort_by-least,
}
use jsrproxy.PackageRegistry.Records.{pending, leased, ready, yanked, is_pending, is_leased}
use jsrproxy.PackageRegistry.{write, with_state, is_available, next_job, lease_next, copy_job}
use jsrproxy.PackageRegistry.Changes.{IsOpen, Changes}
use jsrproxy.PackageRegistry.Methods.{found-Changes, with_state-SameIdentity}
use jsrproxy.PackageRegistry.Records.{materialization_lease_timeout_ms}

-- A record that the registry has under its version, and that may be leased at `now`.
pub record IsCandidate (registry : PackageRegistry) (now : ℕ) (r : VersionRecord) : Type 0 where
  pub found : get registry.versions r.version ≡ some r
  pub available : is_available now r ≡ true

available-IsOpen : (now : ℕ) (r : VersionRecord) → is_available now r ≡ true → IsOpen r.state
unfolding is_available
available-IsOpen now r h = open_of_state r.state r.leased_at h
  where
    open_of_state :
        (s : State) (o : Option ℕ)
        → (is_pending s
            || (is_leased s && elim o [
              | none ↦ true
              | some leased_at ↦ leb (leased_at + materialization_lease_timeout_ms) now
            ]))
          ≡ true
        → IsOpen s
    open_of_state pending o e = tt
    open_of_state leased o e = tt
    open_of_state ready o e = cc
    open_of_state yanked o e = cc

-- A record that gives no job at `now`: its version is published, or it was leased less than two
-- minutes ago.
abbrev pub IsTaken : ℕ → VersionRecord → Type 0
IsTaken now r =
    (r.state ≡ ready)
    ⊎ (r.state ≡ yanked)
    ⊎ ((r.state ≡ leased) × (t : ℕ) × (r.leased_at ≡ some t) × (now < t + 120_000))

IsTaken-available : (now : ℕ) (r : VersionRecord) → IsTaken now r → is_available now r ≡ false
unfolding is_available
IsTaken-available now r (inl e) = rw (e, is_available) refl
IsTaken-available now r (inr (inl e)) = rw (e, is_available) refl
IsTaken-available now r (inr (inr (e, t, at, recent))) =
    rw (e, at, is_available) (ground (arith, recent))

available-IsTaken : (now : ℕ) (r : VersionRecord) → is_available now r ≡ false → IsTaken now r
unfolding is_available
available-IsTaken now r h = of_state r.state r.leased_at h
  where
    of_state :
        (s : State) (o : Option ℕ)
        → (is_pending s
            || (is_leased s && elim o [
              | none ↦ true
              | some leased_at ↦ leb (leased_at + materialization_lease_timeout_ms) now
            ]))
          ≡ false
        → (s ≡ ready) ⊎ (s ≡ yanked) ⊎ ((s ≡ leased) × (t : ℕ) × (o ≡ some t) × (now < t + 120_000))
    of_state pending o e = cc
    of_state leased none e = cc
    of_state leased (some t) e = inr (inr (refl, t, refl, ground arith))
    of_state ready o e = inl refl
    of_state yanked o e = inr (inl refl)

module _ (le : Text → Text → Bool) (registry : PackageRegistry) (now : ℕ)
    (consistent : IsConsistentRegistry registry) where
  candidate-In :
      (r : VersionRecord)
      → IsCandidate registry now r
      → In r (filter (is_available now) (values registry.versions))
  candidate-In r candidate =
      In-filter_from (is_available now) (values registry.versions)
        (get-In-values registry.versions r.version candidate.found) candidate.available

  In-IsCandidate :
      (r : VersionRecord)
      → In r (filter (is_available now) (values registry.versions))
      → IsCandidate registry now r
  In-IsCandidate r m =
      let (i, available) = In-filter_to (is_available now) (values registry.versions) m in
      let (k, entry) = In-values_key registry.versions i in
      let found = In-get registry.versions consistent.keys entry in
      record {
        found = ap (get registry.versions) (consistent.records k r found).version_eq ∙ found;
        available = available;
      }

  next_job-IsCandidate :
      (r : VersionRecord) → next_job le registry now ≡ some r → IsCandidate registry now r
  unfolding next_job
  next_job-IsCandidate r h = In-IsCandidate r (head-sort_by-In _ _ r h)

  -- What a call that leased a job has done.
  pub record Leased (after : PackageRegistry) (job : MaterializationJob) : Type 0 where
    pub old : VersionRecord
    pub candidate : IsCandidate registry now old
    pub next : next_job le registry now ≡ some old
    pub written : after ≡ write registry old.version (with_state old leased (some now))
    pub returned : job ≡ copy_job (with_state old leased (some now))

  pub lease_next-Leased :
      (after : PackageRegistry) (job : MaterializationJob)
      → lease_next le registry now ≡ (after, some job)
      → Leased after job
  unfolding lease_next
  lease_next-Leased after job h = elim (Option-cases (next_job le registry now)) [
    | inl e ↦ let none_left = rw (e, lease_next) at h in absurd (cc (ap (λ p. p.1) none_left))
    | inr (r, e) ↦
        let taken = rw (e, lease_next) at h in
        record {
          old = r;
          candidate = next_job-IsCandidate r e;
          next = e;
          written = sym (ap (λ p. p.0) taken);
          returned = cc (ap (λ p. p.1) taken);
        }
  ]

  pub lease_next-Changes :
      (after : PackageRegistry) (job : MaterializationJob)
      → lease_next le registry now ≡ (after, some job)
      → Changes registry after
  lease_next-Changes after job h =
      let took = lease_next-Leased after job h in
      subst (Changes registry) (sym took.written) (
        found-Changes registry took.old.version took.old (with_state took.old leased (some now))
          consistent took.candidate.found (available-IsOpen now took.old took.candidate.available)
          (with_state-SameIdentity took.old leased (some now)))

  -- Where records and assignments correspond, `leaseNext` finds no job exactly if every record is
  -- ready, yanked or leased, and then at a time that is less than 120,000 ms ago.
  pub next_job-none :
      (next_job le registry now ≡ none)
      ↔ ((r : VersionRecord) → get registry.versions r.version ≡ some r → IsTaken now r)
  unfolding next_job
  next_job-none = (
    λ h r found. elim (Bool-cases (is_available now r)) [
      | inl available ↦
          let m = candidate-In r (record { found = found; available = available }) in
          absurd (not-In-nil (subst (In r) (sort_by-none _ _ h) m))
      | inr e ↦ available-IsTaken now r e
    ],
    λ h. elim (Option-cases (next_job le registry now)) [
      | inl e ↦ e
      | inr (r, e) ↦
          let candidate = next_job-IsCandidate r e in
          absurd (cc (IsTaken-available now r (h r candidate.found), candidate.available))
    ],
  )

  -- Where records and assignments correspond and `localeCompare` is a total order, the version
  -- that is leased comes first in that order of all that may be leased.
  pub lease_next-first :
      (after : PackageRegistry) (job : MaterializationJob)
      → IsTotalOrder le
      → lease_next le registry now ≡ (after, some job)
      → (r : VersionRecord) → IsCandidate registry now r
      → le job.version r.version ≡ true
  unfolding next_job
  lease_next-first after job order h r candidate =
      let took = lease_next-Leased after job h in
      let least =
        head-sort_by-least (λ left right. le left.version right.version)
          (record {
            total = λ x y. order.total x.version y.version;
            trans = λ x y z. order.trans x.version y.version z.version;
          })
          (filter (is_available now) (values registry.versions)) took.old took.next r
          (candidate-In r candidate) in
      subst (λ v. le v r.version ≡ true) (sym (ap (λ j. j.version) took.returned)) least
