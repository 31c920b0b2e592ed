-- ===== src/Plane/Worker.antt =====
-- keel-controlplane/src/worker.rs: the thread that owns the control plane's state. `Types` has the
-- commands' data, `Nodes`, `Replicas`, `Reconcile` and `Repin` the longer commands, `Handle` the
-- state, the commands and `handle_command`; the others are about these.
pub mod Types
pub mod Nodes
pub mod Replicas
pub mod Reconcile
pub mod Repin
pub mod Handle
pub mod Scheduling
pub mod Steps
pub mod Sound
pub mod Planned
pub mod Repinned
pub mod Claimed
pub mod Stored
pub mod Healthy
