-- ===== src/Plane.antt =====
-- The crate keel-controlplane: node registry, scheduler, services and the worker that owns them.
pub mod Subnet
pub mod Scheduler
pub mod Addresses
pub mod Bookkeeping
pub mod Registry
pub mod Services
pub mod Worker
pub mod Http
