-- ===== src/Cluster.antt =====
-- internal/cluster: the registry of nodes (registry.go), the heartbeat monitor (heartbeat.go) and
-- the handling of dead nodes (reaper.go).
pub mod Registry
pub mod Reservations
pub mod Invariant
pub mod Listing
pub mod Gangs
pub mod Reaper
pub mod Monitor
pub mod Lost
mod Tests
