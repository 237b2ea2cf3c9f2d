-- ===== src/Branches/HighWater.antt =====
-- The high-water mark of majors that `selectBranches` of src/branches.ts carries.
use jsrproxy.Common.{
  ℕ, ◌≡◌, refl, ap, ◌∙◌, inl, inr, Option, none, some, List, [], ◌∷◌, Text, arith, Option-cases, In,
  here, there, not-In-nil, In-cons_cases, text_eq,
}
use jsrproxy.Common.Map.{Map}
use jsrproxy.Branches.{CommitTip, SelectedBranch, release_major, observe, visit, collect}
use jsrproxy.Common.Marks.{Covers, Covers-refl, Covers-trans}
use jsrproxy.Branches.Selection.{Loop}

visit-Covers :
    (branch : Text) (tip : CommitTip) (major : Option ℕ) (acc : Loop)
    → Covers acc.1 (visit branch tip major acc).1
unfolding visit observe
visit-Covers branch tip none (releases, observed) = Covers-refl observed
visit-Covers branch tip (some major) (releases, none) = tt
visit-Covers branch tip (some major) (releases, some observed) = ground arith

pub collect-Covers :
    (branches : Map Text CommitTip) (acc : Loop) → Covers acc.1 (collect branches acc).1
unfolding collect
collect-Covers [] acc = Covers-refl acc.1
collect-Covers ((branch, tip) ∷ rest) acc =
    let next = visit branch tip (release_major branch) acc in
    Covers-trans acc.1 next.1 (collect rest next).1
      (visit-Covers branch tip (release_major branch) acc) (collect-Covers rest next)

visit_major-Covers :
    (branch : Text) (tip : CommitTip) (major : ℕ) (acc : Loop)
    → Covers (some major) (visit branch tip (some major) acc).1
unfolding visit observe
visit_major-Covers branch tip major (releases, none) = omega arith
visit_major-Covers branch tip major (releases, some observed) = ground arith

pub collect_majors-Covers :
    (branches : Map Text CommitTip) (acc : Loop) (branch : Text) (tip : CommitTip) (major : ℕ)
    → In (branch, tip) branches
    → release_major branch ≡ some major
    → Covers (some major) (collect branches acc).1
unfolding collect
collect_majors-Covers [] acc branch tip major m e = absurd (not-In-nil m)
collect_majors-Covers ((b, t) ∷ rest) acc branch tip major m e = elim (In-cons_cases m) [
  | inl same ↦
      let name : branch ≡ b = ap (λ p. p.0) same in
      let next = visit b t (some major) acc in
      rw (← name, e, collect)
        (Covers-trans (some major) (visit branch t (some major) acc).1 _
          (visit_major-Covers branch t major acc)
          (collect-Covers rest (visit branch t (some major) acc)))
  | inr later ↦
      collect_majors-Covers rest (visit b t (release_major b) acc) branch tip major later e
]

visit-settled :
    (branch : Text) (tip : CommitTip) (major : ℕ) (acc : Loop)
    → Covers (some major) acc.1
    → (visit branch tip (some major) acc).1 ≡ acc.1
unfolding visit observe
visit-settled branch tip major (releases, none) h = absurd h
visit-settled branch tip major (releases, some observed) h = ground arith

visit-none : (branch : Text) (tip : CommitTip) (acc : Loop) → visit branch tip none acc ≡ acc
unfolding visit
visit-none branch tip acc = refl

-- A loop that meets no greater major leaves the high-water mark as it is.
pub collect-settled :
    (branches : Map Text CommitTip) (acc : Loop)
    → ((branch : Text) (tip : CommitTip) (major : ℕ)
        → In (branch, tip) branches
        → release_major branch ≡ some major
        → Covers (some major) acc.1)
    → (collect branches acc).1 ≡ acc.1
unfolding collect
collect-settled [] acc h = refl
collect-settled ((branch, tip) ∷ rest) acc h = elim (Option-cases (release_major branch)) [
  | inl e ↦
      rw (e, collect, visit-none branch tip acc)
        (collect-settled rest acc (λ b t m i. h b t m (there i)))
  | inr (major, e) ↦
      let same = visit-settled branch tip major acc (h branch tip major here e) in
      rw (e, collect)
        (collect-settled rest (visit branch tip (some major) acc)
            (λ b t m i o. rw same (h b t m (there i) o))
          ∙ same)
]

pub collect_settled_again :
    (branches : Map Text CommitTip) (acc : Loop) (releases : List SelectedBranch)
    → (collect branches (releases, (collect branches acc).1)).1 ≡ (collect branches acc).1
collect_settled_again branches acc releases =
    collect-settled branches (releases, (collect branches acc).1)
      (collect_majors-Covers branches acc)
