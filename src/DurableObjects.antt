-- ===== src/DurableObjects.antt =====
-- src/durable-objects.ts: the admission and the package objects.
pub mod Printing
pub mod Parsing
pub mod Admission
pub mod Decided
pub mod Granting
pub mod Authorizing
pub mod Storage
pub mod Package
pub mod Requests
pub mod Reload
pub mod Lasting
mod Examples
mod GrantingExamples
