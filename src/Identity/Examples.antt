-- ===== src/Identity/Examples.antt =====
-- The laws of src/identity.ts at one package.
use jsrproxy.Common.{ℕ, ◌≡◌, ◌↔◌, refl, Bool, true, false, Option, none, some, [], ◌∷◌, Text, codes}
use jsrproxy.VersionAllocator.{version_text}
use jsrproxy.Identity.{
  to_lower_case, is_scope, is_name, has_double_hyphen, ends_segment, proxyable_repository_name,
  parse_package_identity, parse_package_status_path, parse_package_recovery_path,
}
use jsrproxy.Identity.Names.{IsName, proxyable_repository_name-to_lower_case}
use jsrproxy.Identity.RepositoryNames.{LowerCase, IsRepositoryName, proxyable_repository_name_iff}
use jsrproxy.Identity.Paths.{
  path_of, parse_package_identity-path_of, parse_package_recovery_path-path_of,
  parse_package_status_path-path_of,
}

proxyable_repository_name-to_lower_case_example :
    proxyable_repository_name (to_lower_case (codes "My-Tool"))
    ≡ proxyable_repository_name (codes "My-Tool")
proxyable_repository_name-to_lower_case_example =
    proxyable_repository_name-to_lower_case (codes "My-Tool")

proxyable_repository_name_iff_example :
    (proxyable_repository_name (codes "My-Tool") ≡ some (codes "my-tool"))
    ↔ (LowerCase (codes "My-Tool") (codes "my-tool") × IsRepositoryName (codes "my-tool"))
proxyable_repository_name_iff_example =
    proxyable_repository_name_iff (codes "My-Tool") (codes "my-tool")

acme-is_scope : is_scope (codes "acme") ≡ true
unfolding is_scope jsrproxy.Common.Scanning.all
acme-is_scope = refl

tool-IsName : IsName (codes "my-tool")
unfolding is_name has_double_hyphen jsrproxy.Common.Scanning.all
tool-IsName = record { named = refl; single = refl }

slash_ends : ends_segment (codes "/meta.json") ≡ true
unfolding ends_segment
slash_ends = refl

parse_package_identity-path_of_example :
    parse_package_identity (codes "/@acme/my-tool/meta.json")
    ≡ some (record { scope = codes "acme"; name = codes "my-tool" })
parse_package_identity-path_of_example =
    parse_package_identity-path_of (codes "acme") (codes "my-tool") (codes "/meta.json")
      acme-is_scope tool-IsName slash_ends

parse_package_recovery_path-path_of_example :
    parse_package_recovery_path
      (path_of (codes "/-/recover/@") (codes "acme") (codes "my-tool") (b'/' ∷ version_text 2 100))
    ≡ some (record {
      identity = record { scope = codes "acme"; name = codes "my-tool" };
      version = version_text 2 100;
    })
parse_package_recovery_path-path_of_example =
    parse_package_recovery_path-path_of (codes "acme") (codes "my-tool") 2 100 acme-is_scope
      tool-IsName

parse_package_status_path-path_of_example :
    (parse_package_status_path (codes "/-/status/@acme/my-tool")
      ≡ some (record {
        identity = record { scope = codes "acme"; name = codes "my-tool" };
        version = none;
      }))
    × (parse_package_status_path (
          path_of
            (codes "/-/status/@")
            (codes "acme")
            (codes "my-tool")
            (b'/' ∷ version_text 2 100))
        ≡ some (record {
          identity = record { scope = codes "acme"; name = codes "my-tool" };
          version = some (version_text 2 100);
        }))
parse_package_status_path-path_of_example =
    parse_package_status_path-path_of (codes "acme") (codes "my-tool") 2 100 acme-is_scope
      tool-IsName
