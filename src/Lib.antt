-- ===== src/Lib.antt =====
-- jsrproxy: a proxy of the JSR registry that publishes the release branches of configured GitHub
-- repositories as synthetic packages. This library is about its Cloudflare Worker, the TypeScript
-- files of src/.
--
-- How the parts interact. A request names a package by its path (src/identity.ts). The branch tips
-- that GitHub reports are reduced to one branch for each major (src/branches.ts), each selected
-- commit gets a version (src/version-allocator.ts), and each version a materialization job in the
-- registry of its package (src/package-registry.ts), which is leased, and published as ready or
-- yanked. Artifacts of a materialized version are written to R2 once each, the ready marker last
-- (src/r2-publication.ts), and are served from there when the marker stands (src/r2-artifacts.ts).
-- Who may see a package depends on the configured scopes and users (src/config.ts) and on what
-- GitHub answers to the caller's credential (src/auth.ts). Two Durable Objects keep this state
-- (src/durable-objects.ts): one the decision about a credential, the other the registry of a
-- package, whose snapshot each request loads, takes one step of the state machine, and saves.
--
-- Which file models which part. A module's functions have the source's names in snake case.
--   Common: results of code that throws, texts as lists of UTF-16 units, decimal numerals, maps with
--     their order of insertion, sorting, JSON values, requests and responses.
--   Identity: src/identity.ts. The regular expressions are predicates on texts.
--   Branches: src/branches.ts. The high-water mark is an option of a number.
--   VersionAllocator: src/version-allocator.ts. An allocator is a map from majors to allocations,
--     and a method returns its result with the allocator that it leaves.
--   PackageRegistry: src/package-registry.ts. Its records are in PackageRegistry/Records.
--     PackageRegistry/History has the step relation of the methods and what it can reach.
--   Auth: src/auth.ts. Config: src/config.ts.
--   Publication: src/r2-publication.ts, over the bucket of Publication/Bucket.
--   Artifacts: src/r2-artifacts.ts.
--   DurableObjects: src/durable-objects.ts. Storage has the stored state with `#registry` and
--     `#saveRegistry`, Package the requests to a package object, Admission what is asked of GitHub,
--     Parsing and Printing the JSON. Requests makes events of the requests, and Lasting follows the
--     storage through any of them. `#materialize` is two events, since others come between them.
-- Each part has a module Examples with its laws at concrete inputs, and tests.
--
-- Numbers are natural. JavaScript's are doubles: a whole number is safe up to 2 ^ 53 - 1, which is
-- `max_safe_integer`. `add_one` writes out the rounding at that bound for high-water marks, and the
-- statements that need safe numbers say so. Attempt counters, which rise by one with each recovery,
-- are taken as exact. -1, where the source starts a high-water mark, is `none`. A wait until a reset
-- time is in milliseconds, since it may be a fraction of a second.
--
-- Loops over lists and maps are structural recursion, so no fuel is needed.
--
-- Code that is not in the repository is a parameter: `localeCompare` (the order `le`, where a law
-- needs it a total one), `JSON.parse`, `btoa`, the HMAC and the digest of `crypto.subtle`, `atob`,
-- `decodeURIComponent`, the paths of `URL`, header values as `Request` normalises them,
-- `toUTCString`, `encodeURIComponent`, `toLowerCase` of a name that GitHub reports, the answers of
-- GitHub and of the container, the texts of the engine's own errors, and the R2 bucket, whose calls
-- may reject, with what R2 documents of `head` and of a conditional `put` as a hypothesis.
--
-- Not modelled: the routing of src/index.ts and of `fetch` in the package object, src/fallthrough.ts,
-- the pagination of src/github-branches.ts and the requests of `githubArchive`, which are about
-- requests to others and their answers; src/materializer-container.ts, which sets fields of a class of
-- @cloudflare/containers; the Rust service in materializer/; tests and deployment files.
pub mod Common
pub mod Identity
pub mod Branches
pub mod VersionAllocator
pub mod PackageRegistry
pub mod Auth
pub mod Config
pub mod Publication
pub mod Artifacts
pub mod DurableObjects
