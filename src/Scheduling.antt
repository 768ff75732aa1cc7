-- ===== src/Scheduling.antt =====
-- internal/scheduler: the choice of a gang (resources.go) and the scheduling step (scheduler.go).
pub mod Resources
pub mod Gang
pub mod Dispatch
pub mod Schedule
pub mod AllOrNothing
pub mod Placed
pub mod Progress
mod Tests
mod PlacedTests
