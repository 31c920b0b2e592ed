-- ===== src/Agent.antt =====
-- The crate keel-agentd: the agent on a node, with the crates through which it reaches the node.
pub mod Backoff
pub mod Record
pub mod Host
pub mod Files
pub mod Store
pub mod Ingress
pub mod Site
pub mod Provision
pub mod Checks
pub mod Reconciler
pub mod Worker
