-- ===== src/Spec.antt =====
-- The crate keel-spec: the specifications of jails, services and ingresses, and their validation.
pub mod Types
pub mod Equality
pub mod Names
pub mod Hosts
pub mod Resources
pub mod Volumes
pub mod Parse
