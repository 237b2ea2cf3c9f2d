-- ===== src/Branches/Selection.antt =====
-- `selectBranches` of src/branches.ts: what the loop collects, and when the default branch is added.
use mathlib.Core.List.{append-nil, append_assoc}
use jsrproxy.Common.{
  ℕ, ◌≡◌, sym, ap, ◌∙◌, inl, inr, Option, none, some, List, [], ◌∷◌, ◌++◌, Text, Option-cases, In,
  here, there, not-In-nil, In-cons_cases, subst, text_eq,
}
use jsrproxy.Common.Map.{Map}
use jsrproxy.Branches.{CommitTip, SelectedBranch, release_major, visit, collect}

abbrev pub Loop : Type 0
Loop = List SelectedBranch × Option ℕ

-- The releases of a discovery, in the order of its branches.
pub releases_of : Map Text CommitTip → List SelectedBranch
releases_of [] = []
releases_of ((branch, tip) ∷ rest) = elim (release_major branch) [
  | none ↦ releases_of rest
  | some major ↦ record { branch = branch; major = major; tip = tip } ∷ releases_of rest
]

pub collect-releases :
    (branches : Map Text CommitTip) (acc : Loop)
    → (collect branches acc).0 ≡ acc.0 ++ releases_of branches
unfolding collect visit releases_of
collect-releases [] acc = sym (append-nil acc.0)
collect-releases ((branch, tip) ∷ rest) acc = elim (Option-cases (release_major branch)) [
  | inl e ↦ rw (e, collect, releases_of) (collect-releases rest acc)
  | inr (major, e) ↦
      rw (e, collect, releases_of)
        (collect-releases rest (visit branch tip (some major) acc)
          ∙ append_assoc acc.0 (record { branch = branch; major = major; tip = tip } ∷ [])
              (releases_of rest))
]

pub In-releases_of_to :
    (branches : Map Text CommitTip) {s : SelectedBranch}
    → In s (releases_of branches)
    → In (s.branch, s.tip) branches × (release_major s.branch ≡ some s.major)
unfolding releases_of
In-releases_of_to [] m = absurd (not-In-nil m)
In-releases_of_to ((branch, tip) ∷ rest) {s} m = elim (Option-cases (release_major branch)) [
  | inl e ↦
      let (found, owns) = In-releases_of_to rest (rw (e, releases_of) at m) in (there found, owns)
  | inr (major, e) ↦ elim (In-cons_cases (rw (e, releases_of) at m)) [
    | inl same ↦
        subst
          (λ r.
            In (r.branch, r.tip) ((branch, tip) ∷ rest) × (release_major r.branch ≡ some r.major))
          (sym same) (here, e)
    | inr later ↦ let (found, owns) = In-releases_of_to rest later in (there found, owns)
  ]
]

pub In-releases_of_from :
    (branches : Map Text CommitTip) (branch : Text) (tip : CommitTip) (major : ℕ)
    → In (branch, tip) branches
    → release_major branch ≡ some major
    → In (record { branch = branch; major = major; tip = tip }) (releases_of branches)
unfolding releases_of
In-releases_of_from [] branch tip major m e = absurd (not-In-nil m)
In-releases_of_from ((b, t) ∷ rest) branch tip major m e = elim (In-cons_cases m) [
  | inl same ↦
      let name : branch ≡ b = ap (λ p. p.0) same in
      let commit : tip ≡ t = ap (λ p. p.1) same in
      let owned : release_major b ≡ some major = subst (λ x. release_major x ≡ some major) name e in
      rw (name, commit, owned, releases_of) here
  | inr later ↦
      let rest_in = In-releases_of_from rest branch tip major later e in
      elim (Option-cases (release_major b)) [
        | inl none_b ↦ rw (none_b, releases_of) rest_in
        | inr (m', some_b) ↦ rw (some_b, releases_of) (there rest_in)
      ]
]
