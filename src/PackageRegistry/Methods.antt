-- ===== src/PackageRegistry/Methods.antt =====
-- `markReady`, `markYanked`, `releaseLease` and `leaseNext` of src/package-registry.ts on a record.
use jsrproxy.Common.{
  ℕ, ◌≡◌, refl, sym, ap, subst, ◌∙◌, inl, inr, true, Option, none, some, Text, text_eq, nat_eq,
  Bool-cases, Option-cases, ok, err,
}
use jsrproxy.Common.Map.{get, get-set_self}
use jsrproxy.PackageRegistry.Records.{State, VersionRecord, PackageRegistry}
use jsrproxy.Common.{>>=-eq-ok}
use jsrproxy.PackageRegistry.Refresh.{IsConsistentRegistry}
use jsrproxy.Common.{◌||◌, codes, cannot_transition, not_leased}
use jsrproxy.PackageRegistry.Records.{
  TombstoneDiagnostic, pending, leased, ready, yanked, is_pending, is_leased,
}
use jsrproxy.PackageRegistry.{
  write, with_state, with_diagnostic, require_pending, mark_ready, mark_yanked, release_lease,
}
use jsrproxy.PackageRegistry.Changes.{IsOpen, SameIdentity, Changes}

IsOpen-of_test : (s : State) → (is_pending s || is_leased s) ≡ true → IsOpen s
IsOpen-of_test pending h = tt
IsOpen-of_test leased h = tt
IsOpen-of_test ready h = cc
IsOpen-of_test yanked h = cc

pub with_state-SameIdentity :
    (r : VersionRecord) (s : State) (at : Option ℕ) → SameIdentity r (with_state r s at)
with_state-SameIdentity r s at = record {
  branch = refl;
  commit_sha = refl;
  major = refl;
  version = refl;
  assignment = refl;
}

-- A write to a record that is found in a consistent registry.
pub found-Changes :
    (registry : PackageRegistry) (version : Text) (old new : VersionRecord)
    → IsConsistentRegistry registry
    → get registry.versions version ≡ some old
    → IsOpen old.state
    → SameIdentity old new
    → Changes registry (write registry version new)
found-Changes registry version old new consistent e is_open identity =
    let name = (consistent.records version old e).version_eq in
    record {
      old = old;
      new = new;
      found = ap (get registry.versions) name ∙ e;
      is_open = is_open;
      identity = identity;
      written = ap (λ v. write registry v new) (sym name);
    }

-- `#requirePending` returns an open record that it found.
require_pending-IsOpen :
    (registry : PackageRegistry) (version : Text) (r : VersionRecord)
    → require_pending registry version ≡ ok r
    → (get registry.versions version ≡ some r) × IsOpen r.state
unfolding require_pending
require_pending-IsOpen registry version r h = elim (Option-cases (get registry.versions version)) [
  | inl e ↦ let thrown = rw e at h in absurd (cc)
  | inr (found, e) ↦
      let tested = rw e at h in
      elim (Bool-cases (is_pending found.state || is_leased found.state)) [
        | inl test ↦
            let returned = rw test at tested in
            let is_r : found ≡ r = cc in
            subst (λ x. (get registry.versions version ≡ some x) × IsOpen x.state) is_r
              (e, IsOpen-of_test found.state test)
        | inr test ↦ let thrown = rw test at tested in absurd (cc)
      ]
]

pub mark_ready-Changes :
    (registry : PackageRegistry) (version : Text) (after : PackageRegistry)
    → IsConsistentRegistry registry
    → mark_ready registry version ≡ ok after
    → Changes registry after
unfolding mark_ready
mark_ready-Changes registry version after consistent h =
    let (r, required, returned) = >>=-eq-ok (require_pending registry version) _ h in
    let (found, is_open) = require_pending-IsOpen registry version r required in
    subst (Changes registry) (cc) (
      found-Changes registry version r (with_state r ready none) consistent found is_open
        (with_state-SameIdentity r ready none))

pub mark_yanked-Changes :
    (registry : PackageRegistry) (version : Text) (diagnostic : TombstoneDiagnostic)
    (after : PackageRegistry)
    → IsConsistentRegistry registry
    → mark_yanked registry version diagnostic ≡ ok after
    → Changes registry after
unfolding mark_yanked
mark_yanked-Changes registry version diagnostic after consistent h =
    let (r, required, returned) = >>=-eq-ok (require_pending registry version) _ h in
    let (found, is_open) = require_pending-IsOpen registry version r required in
    subst (Changes registry) (cc) (
      found-Changes registry version r (with_diagnostic (with_state r yanked none) diagnostic)
        consistent found is_open
        (record {
          branch = refl;
          commit_sha = refl;
          major = refl;
          version = refl;
          assignment = refl;
        }))

leased-IsOpen : (s : State) → is_leased s ≡ true → IsOpen s
leased-IsOpen pending h = cc
leased-IsOpen leased h = tt
leased-IsOpen ready h = cc
leased-IsOpen yanked h = cc

pub release_lease-Changes :
    (registry : PackageRegistry) (version : Text) (after : PackageRegistry)
    → IsConsistentRegistry registry
    → release_lease registry version ≡ ok after
    → Changes registry after
unfolding release_lease
release_lease-Changes registry version after consistent h =
    elim (Option-cases (get registry.versions version)) [
      | inl e ↦ let thrown = rw e at h in absurd (cc)
      | inr (found, e) ↦
          let tested = rw e at h in
          elim (Bool-cases (is_leased found.state)) [
            | inl test ↦
                let returned = rw test at tested in
                subst (Changes registry) (cc) (
                  found-Changes registry version found (with_state found pending none) consistent e
                    (leased-IsOpen found.state test) (with_state-SameIdentity found pending none))
            | inr test ↦ let thrown = rw test at tested in absurd (cc)
          ]
    ]

-- A version that `markReady` published cannot be published, yanked or released any more.
pub mark_ready_once :
    (registry : PackageRegistry) (version : Text) (diagnostic : TombstoneDiagnostic)
    (after : PackageRegistry)
    → mark_ready registry version ≡ ok after
    → (mark_ready after version ≡ err (cannot_transition version (codes "ready")))
      × (mark_yanked after version diagnostic ≡ err (cannot_transition version (codes "ready")))
      × (release_lease after version ≡ err (not_leased version))
unfolding mark_ready mark_yanked release_lease
mark_ready_once registry version diagnostic after h =
    let (r, required, returned) = >>=-eq-ok (require_pending registry version) _ h in
    let is_after : write registry version (with_state r ready none) ≡ after = cc in
    subst
      (λ a.
        (mark_ready a version ≡ err (cannot_transition version (codes "ready")))
        × (mark_yanked a version diagnostic ≡ err (cannot_transition version (codes "ready")))
        × (release_lease a version ≡ err (not_leased version)))
      is_after
      (let found = get-set_self registry.versions version (with_state r ready none) in
        (rw found refl, rw found refl, rw found refl))
