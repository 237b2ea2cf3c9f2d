-- ===== src/DurableObjects/Storage.antt =====
-- The storage of a package object of src/durable-objects.ts, with `#registry` and `#saveRegistry`.
use jsrproxy.Common.{
  Bool, true, ◌&&◌, Option, none, some, Text, ◌==◌, text_eq, Result, ok, err, require, ◌>>=◌, ◌>>◌,
  identity_mismatch, not_initialized, sqlite_required,
}
use jsrproxy.Common.Map.{Map}
use jsrproxy.Auth.{GitHubDecision}
use jsrproxy.PackageRegistry.Records.{PackageName, PackageRegistry, PackageRegistrySnapshot}
use jsrproxy.PackageRegistry.{new_registry, from_snapshot, snapshot}

-- `cache` is the records by key, an `AdmissionRecord` having the fields of a decision. `sql` is
-- `none` for an object without SQLite, and otherwise the row of `package_registry`, if it is there.
-- The text of the row is the JSON of its snapshot, and stands for it.
pub record Storage : Type 0 where
  pub cache : Map Text GitHubDecision
  pub sql : Option (Option PackageRegistrySnapshot)

abbrev pub row_of : Option (Option PackageRegistrySnapshot) → Option PackageRegistrySnapshot
row_of none = none
row_of (some row) = row

-- `!initialName || (registry.name.scope === initialName.scope && ...)`
unfoldable pub is_named : PackageName → Option PackageName → Bool
is_named name none = true
is_named name (some initial) = (name.scope == initial.scope) && (name.name == initial.name)

-- `#registry`
unfoldable pub load : Storage → Option PackageName → Result PackageRegistry
unfolding is_named
load storage initial_name = elim (row_of storage.sql) [
  | some stored ↦ do
    registry ← from_snapshot stored
    require (is_named registry.name initial_name) identity_mismatch
    ok registry
  | none ↦ elim initial_name [ none ↦ err not_initialized | some name ↦ ok (new_registry name) ]
]

-- `#saveRegistry`
unfoldable pub save : (Text → Text → Bool) → Storage → PackageRegistry → Result Storage
save le storage registry = elim storage.sql [
  | none ↦ err sqlite_required
  | some row ↦ ok (record storage { sql = some (some (snapshot le registry)) })
]
