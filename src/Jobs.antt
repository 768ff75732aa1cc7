-- ===== src/Jobs.antt =====
-- internal/job: the job and its life cycle (job.go), and the manager of all jobs (manager.go).
pub mod Model
pub mod Manager
pub mod Changes
pub mod Transitions
pub mod Effects
pub mod Pending
pub mod Invariant
pub mod Completion
pub mod Errors
pub mod Lifecycle
pub mod Order
mod Tests
pub mod Outcomes
