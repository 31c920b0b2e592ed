-- ===== src/Samples/Runs.antt =====
-- The theorems applied at concrete inputs.
mod Specs
mod Planes
mod Workers
mod Agents
mod Jails
mod Stores
