-- ===== src/VersionAllocator/Restored.antt =====
-- The allocations of a major in src/version-allocator.ts after a round of the loop of
-- `fromSnapshot`.
use jsrproxy.Common.{
  ℕ, ◌≤◌, ◌≡◌, refl, sym, ap, subst, ◌∙◌, ◌⊎◌, inl, inr, Option, none, some, Text, arith,
  if◌then◌else◌, ltb, max_safe_integer, text_eq, nat_eq, ◌==◌, Bool-cases, Option-cases,
  text_beq_iff, text_beq-eq,
}
use jsrproxy.Common.Map.{get, get-set, get-set_self, get-set_cases}
use jsrproxy.VersionAllocator.{
  VersionAssignment, MajorAllocations, no_allocations, key, version_text, restored,
}
use jsrproxy.VersionAllocator.Ledger.{IsEntry, IsCurrent, IsSafe, Reaches}

-- A ledger, but for that sequence numbers are distinct.
pub record IsOpenLedger (major : ℕ) (allocations : MajorAllocations) : Type 0 where
  pub entries :
      (k : Text) (a : VersionAssignment)
      → get allocations.assignments k ≡ some a
      → IsEntry major allocations k a
  pub currents :
      (s : Text) (n : ℕ) → get allocations.current_attempts s ≡ some n → IsCurrent allocations s n
  pub safe : IsSafe allocations.high_water

pub no_allocations-IsOpenLedger : (major : ℕ) → IsOpenLedger major no_allocations
unfolding get
no_allocations-IsOpenLedger major = record {
  entries = λ k a e. cc;
  currents = λ s n e. cc;
  safe = tt;
}

-- The later of an attempt and the one that is current.
abbrev later : Option ℕ → ℕ → ℕ
later none n = n
later (some c) n = if ltb c n then n else c

later-right : (o : Option ℕ) (n : ℕ) → n ≤ later o n
later-right none n = omega arith
later-right (some c) n = ground arith

later-left : (o : Option ℕ) (n c : ℕ) → o ≡ some c → c ≤ later o n
later-left none n c e = cc
later-left (some d) n c e =
    let same : d ≡ c = cc in subst (λ x. x ≤ later (some d) n) same (ground arith)

later_cases : (o : Option ℕ) (n : ℕ) → (later o n ≡ n) ⊎ (o ≡ some (later o n))
later_cases none n = inl refl
later_cases (some c) n = elim (Bool-cases (ltb c n)) [
  | inl e ↦ inl (rw e refl)
  | inr e ↦ inr (rw e refl)
]

module _ (al : MajorAllocations) (a : VersionAssignment)
    (absent : get al.assignments (key a.commit_sha a.attempt) ≡ none) where
  pub kept-restored :
      (k : Text) (b : VersionAssignment)
      → get al.assignments k ≡ some b
      → get (restored al a).assignments k ≡ some b
  unfolding restored
  kept-restored k b e = elim (Bool-cases (key a.commit_sha a.attempt == k)) [
    | inl same ↦
        let name : key a.commit_sha a.attempt ≡ k = text_beq-eq _ _ same in
        absurd (cc (absent, ap (get al.assignments) name, e))
    | inr different ↦ rw (get-set, different) e
  ]

  pub found-restored : get (restored al a).assignments (key a.commit_sha a.attempt) ≡ some a
  unfolding restored
  found-restored = get-set_self al.assignments (key a.commit_sha a.attempt) a

  pub restored_cases :
      (k : Text) (b : VersionAssignment)
      → get (restored al a).assignments k ≡ some b
      → ((k ≡ key a.commit_sha a.attempt) × (b ≡ a)) ⊎ (get al.assignments k ≡ some b)
  unfolding restored
  restored_cases k b e = elim (get-set_cases al.assignments (key a.commit_sha a.attempt) k a e) [
    | inl new ↦ inl new
    | inr (_, old) ↦ inr old
  ]

  current-restored :
      (s : Text)
      → get (restored al a).current_attempts s ≡ (
          if a.commit_sha == s
          then some (later (get al.current_attempts a.commit_sha) a.attempt)
          else get al.current_attempts s)
  unfolding restored
  current-restored s = elim (Option-cases (get al.current_attempts a.commit_sha)) [
    | inl e ↦ rw (e, restored) (get-set al.current_attempts a.commit_sha s a.attempt)
    | inr (c, e) ↦ elim (Bool-cases (ltb c a.attempt)) [
      | inl less ↦ rw (e, less, restored) (get-set al.current_attempts a.commit_sha s a.attempt)
      | inr not_less ↦ elim (Bool-cases (a.commit_sha == s)) [
        | inl same ↦
            let name : a.commit_sha ≡ s = text_beq-eq _ _ same in
            rw (e, not_less, same, restored) (ap (get al.current_attempts) (sym name) ∙ e)
        | inr different ↦ rw (e, not_less, different, restored) refl
      ]
    ]
  ]

  module _ (open_ledger : IsOpenLedger a.major al)
      (version_eq : a.version ≡ version_text a.major a.sequence)
      (sequence_safe : a.sequence ≤ max_safe_integer) where
    latest-restored :
        (s : Text) (n : ℕ)
        → get al.current_attempts s ≡ some n
        → (latest : ℕ) × (get (restored al a).current_attempts s ≡ some latest) × (n ≤ latest)
    latest-restored s n e = elim (Bool-cases (a.commit_sha == s)) [
      | inl same ↦
          let name : a.commit_sha ≡ s = text_beq-eq _ _ same in
          (
            later (get al.current_attempts a.commit_sha) a.attempt,
            current-restored s ∙ rw same refl,
            later-left (get al.current_attempts a.commit_sha) a.attempt n
                (ap (get al.current_attempts) name ∙ e),
          )
      | inr different ↦ (n, current-restored s ∙ rw different e, omega arith)
    ]

    Reaches-restored :
        (o : Option ℕ) (s : ℕ)
        → al.high_water ≡ o
        → Reaches s o
        → Reaches s (restored al a).high_water
    unfolding restored
    Reaches-restored none s e r = absurd r
    Reaches-restored (some h) s e r = rw e (ground arith)

    below_mark : (o : Option ℕ) → al.high_water ≡ o → Reaches a.sequence (restored al a).high_water
    unfolding restored
    below_mark none e = rw e (omega arith)
    below_mark (some h) e = rw e (ground arith)

    IsSafe-restored :
        (o : Option ℕ) → al.high_water ≡ o → IsSafe o → IsSafe (restored al a).high_water
    unfolding restored
    IsSafe-restored none e s = rw e sequence_safe
    IsSafe-restored (some h) e s = rw e (ground (arith, sequence_safe))

    kept-IsCurrent : (s : Text) (n : ℕ) → IsCurrent al s n → IsCurrent (restored al a) s n
    kept-IsCurrent s n current = record {
      assignment = current.assignment;
      found = kept-restored (key s n) current.assignment current.found;
    }

    latest_found :
        (s : Text) (n : ℕ)
        → (if a.commit_sha == s
            then some (later (get al.current_attempts a.commit_sha) a.attempt)
            else get al.current_attempts s)
          ≡ some n
        → IsCurrent (restored al a) s n
    latest_found s n e = elim (Bool-cases (a.commit_sha == s)) [
      | inr different ↦ kept-IsCurrent s n (open_ledger.currents s n (rw different at e))
      | inl same ↦
          let name : a.commit_sha ≡ s = text_beq-eq _ _ same in
          let at_latest : some (later (get al.current_attempts a.commit_sha) a.attempt) ≡ some n =
            rw same at e in
          let latest : later (get al.current_attempts a.commit_sha) a.attempt ≡ n = cc in
          elim (later_cases (get al.current_attempts a.commit_sha) a.attempt) [
            | inl own ↦ record {
              assignment = a;
              found =
                  ap (get (restored al a).assignments)
                    (λ i. key (sym name i) ((sym latest ∙ own) i))
                  ∙ found-restored;
            }
            | inr old ↦ kept-IsCurrent s n (
                open_ledger.currents s n
                  (ap (get al.current_attempts) (sym name) ∙ old ∙ at_latest))
          ]
    ]

    pub restored-IsOpenLedger : IsOpenLedger a.major (restored al a)
    restored-IsOpenLedger = record {
      entries = λ k b e. elim (restored_cases k b e) [
        | inl (at_key, same) ↦
            rw (at_key, same)
              (record {
                keyed = refl;
                major_eq = refl;
                version_eq = version_eq;
                below = below_mark al.high_water refl;
                latest = later (get al.current_attempts a.commit_sha) a.attempt;
                latest_eq =
                    current-restored a.commit_sha
                    ∙ rw ((text_beq_iff a.commit_sha a.commit_sha).1 refl) refl;
                superseded = later-right (get al.current_attempts a.commit_sha) a.attempt;
              })
        | inr old ↦
            let entry = open_ledger.entries k b old in
            let (latest, latest_eq, grows) =
              latest-restored b.commit_sha entry.latest entry.latest_eq in
            record {
              keyed = entry.keyed;
              major_eq = entry.major_eq;
              version_eq = entry.version_eq;
              below = Reaches-restored al.high_water b.sequence refl entry.below;
              latest = latest;
              latest_eq = latest_eq;
              superseded = omega (arith, grows, entry.superseded);
            }
      ];
      currents = λ s n e. latest_found s n (sym (current-restored s) ∙ e);
      safe = IsSafe-restored al.high_water refl open_ledger.safe;
    }
