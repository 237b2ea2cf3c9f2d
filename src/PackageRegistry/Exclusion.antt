-- ===== src/PackageRegistry/Exclusion.antt =====
-- That a job is leased to one container at a time, by src/package-registry.ts.
use jsrproxy.Common.{
  ℕ, ◌+◌, ◌<◌, ◌≡◌, ◌≢◌, sym, ap, ◌∙◌, false, Bool, some, Text, arith, text_eq, nat_eq,
}
use jsrproxy.Common.Map.{get, get-set_self}
use jsrproxy.PackageRegistry.Records.{MaterializationJob, VersionRecord, PackageRegistry}
use jsrproxy.PackageRegistry.Refresh.{IsConsistentRegistry}
use jsrproxy.PackageRegistry.Records.{leased}
use jsrproxy.PackageRegistry.{with_state, is_available, lease_next}
use jsrproxy.PackageRegistry.Records.{materialization_lease_timeout_ms}
use jsrproxy.PackageRegistry.Changes.{Changes-IsConsistent}
use jsrproxy.PackageRegistry.Leases.{Leased, lease_next-Leased, lease_next-Changes}

held_unavailable :
    (r : VersionRecord) (now later : ℕ)
    → later < now + materialization_lease_timeout_ms
    → is_available later (with_state r leased (some now)) ≡ false
unfolding is_available
held_unavailable r now later early = ground arith

module _ (le : Text → Text → Bool) (registry after last : PackageRegistry) (now later : ℕ)
    (job next_leased : MaterializationJob) (consistent : IsConsistentRegistry registry)
    (first : lease_next le registry now ≡ (after, some job)) where
  took : Leased le registry now consistent after job
  took = lease_next-Leased le registry now consistent after job first

  consistent_after : IsConsistentRegistry after
  consistent_after =
      Changes-IsConsistent registry after consistent
        (lease_next-Changes le registry now consistent after job first)

  held : VersionRecord
  held = with_state took.old leased (some now)

  -- From a registry whose records and assignments correspond: of two calls in turn, the second
  -- does not lease the job of the first before its time is up.
  pub lease_next-exclusive :
      lease_next le after later ≡ (last, some next_leased)
      → later < now + materialization_lease_timeout_ms
      → next_leased.version ≢ job.version
  unfolding held took
  lease_next-exclusive second early same =
      let taken = lease_next-Leased le after later consistent_after last next_leased second in
      let again = taken.candidate in
      let version : taken.old.version ≡ took.old.version =
        sym (ap (λ j. j.version) taken.returned) ∙ same ∙ ap (λ j. j.version) took.returned in
      let at_old : get after.versions took.old.version ≡ some held =
        ap (λ r. get r.versions took.old.version) took.written
        ∙ get-set_self registry.versions took.old.version held in
      let is_held : taken.old ≡ held = cc (again.found, ap (get after.versions) version, at_old) in
      let unavailable = held_unavailable took.old now later early in
      absurd (cc (again.available, ap (is_available later) is_held, unavailable))
