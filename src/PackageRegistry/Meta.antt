-- ===== src/PackageRegistry/Meta.antt =====
-- `meta` of src/package-registry.ts.
use jsrproxy.Common.{
  ◌≡◌, refl, sym, ap, ◌∙◌, inl, inr, Bool, Option, none, some, [], ◌∷◌, Text, arith, if◌then◌else◌,
  text_eq, nat_eq, ◌==◌, Bool-cases, Option-cases, text_beq-eq,
}
use jsrproxy.Common.Map.{Map, get, set, get-set}
use jsrproxy.PackageRegistry.Records.{State, VersionRecord, PackageRegistry}
use jsrproxy.Common.{In, here, there}
use jsrproxy.PackageRegistry.Refresh.{IsConsistentRegistry}
use jsrproxy.Common.{◌||◌}
use jsrproxy.Common.Map.{values, IsMap, In-get}
use jsrproxy.PackageRegistry.Records.{pending, leased, ready, yanked, is_ready, is_yanked}
use jsrproxy.PackageRegistry.Records.{MetaVersion}
use jsrproxy.PackageRegistry.{meta, meta_versions}
use jsrproxy.PackageRegistry.History.{Reach, Reach-IsConsistent, Reach-published}
use jsrproxy.PackageRegistry.Recovery.{IsPublished}

-- What `meta` says of a version that has the record `o`.
abbrev pub listed : Option VersionRecord → Option MetaVersion → Option MetaVersion
listed none before = before
listed (some r) before =
    if is_ready r.state || is_yanked r.state
    then some (record { yanked = is_yanked r.state })
    else before

-- Each record stands under its own version.
abbrev IsKeyed : Map Text VersionRecord → Type 0
IsKeyed [] = Unit
IsKeyed ((k, r) ∷ m) = (r.version ≡ k) × IsKeyed m

IsKeyed-of :
    (m : Map Text VersionRecord)
    → ((k : Text) (r : VersionRecord) → In (k, r) m → r.version ≡ k)
    → IsKeyed m
IsKeyed-of [] h = tt
IsKeyed-of ((k, r) ∷ m) h = (h k r here, IsKeyed-of m (λ j s i. h j s (there i)))

get-listed :
    (versions : Map Text MetaVersion) (k v : Text) (r : VersionRecord)
    → r.version ≡ k
    → get
        (if is_ready r.state || is_yanked r.state
          then set versions r.version (record { yanked = is_yanked r.state })
          else versions)
        v
      ≡ (if k == v then listed (some r) (get versions v) else get versions v)
get-listed versions k v r e = elim (Bool-cases (is_ready r.state || is_yanked r.state)) [
  | inl published ↦ rw (published, e) (get-set versions k v (record { yanked = is_yanked r.state }))
  | inr is_open ↦ rw is_open (ground arith)
]

get-meta_versions :
    (m : Map Text VersionRecord) (versions : Map Text MetaVersion) (v : Text)
    → IsMap m
    → IsKeyed m
    → get (meta_versions (values m) versions) v ≡ listed (get m v) (get versions v)
unfolding meta_versions get
get-meta_versions [] versions v distinct keyed = refl
get-meta_versions ((k, r) ∷ m) versions v distinct keyed =
    get-meta_versions m _ v distinct.1 keyed.1
    ∙ ap (listed (get m v)) (get-listed versions k v r keyed.0)
    ∙ elim (Bool-cases (k == v)) [
      | inl at_version ↦
          let name : k ≡ v = text_beq-eq k v at_version in
          let alone : get m v ≡ none = ap (get m) (sym name) ∙ distinct.0 in
          rw (at_version, alone) refl
      | inr elsewhere ↦ rw elsewhere refl
    ]

-- Where records and assignments correspond, `meta` lists a version exactly if its record is
-- ready or yanked, and as yanked exactly if the record is.
pub get-meta :
    (registry : PackageRegistry) (version : Text)
    → IsConsistentRegistry registry
    → get (meta registry).versions version ≡ listed (get registry.versions version) none
unfolding meta get
get-meta registry version consistent =
    get-meta_versions registry.versions [] version consistent.keys (
      IsKeyed-of registry.versions
        (λ k r i. (consistent.records k r (In-get registry.versions consistent.keys i)).version_eq))

pub listed-published :
    (r : VersionRecord) (m : MetaVersion) → listed (some r) none ≡ some m → IsPublished r.state
listed-published r m h = published_of_state r.state h
  where
    published_of_state :
        (s : State)
        → ◌≡◌ {A = Option MetaVersion}
            (if is_ready s || is_yanked s then some (record { yanked = is_yanked s }) else none)
            (some m)
        → IsPublished s
    published_of_state pending e = cc
    published_of_state leased e = cc
    published_of_state ready e = tt
    published_of_state yanked e = tt

-- From a registry whose records and assignments correspond, what `meta` lists once, it lists
-- with the same flag after any further calls that return, while all sequence numbers stay safe
-- integers.
pub meta-monotone :
    (le : Text → Text → Bool) {first last : PackageRegistry} (version : Text) (m : MetaVersion)
    → IsConsistentRegistry first
    → Reach le first last
    → get (meta first).versions version ≡ some m
    → get (meta last).versions version ≡ some m
meta-monotone le {first} {last} version m consistent reach e =
    let before = sym (get-meta first version consistent) ∙ e in
    elim (Option-cases (get first.versions version)) [
      | inl missing ↦ let unlisted = rw missing at before in absurd (cc)
      | inr (r, found) ↦
          let lists : listed (some r) none ≡ some m = rw found at before in
          let still =
            Reach-published le version r consistent reach found (listed-published r m lists) in
          get-meta last version (Reach-IsConsistent le consistent reach) ∙ rw still lists
    ]
