-- ===== src/System.antt =====
-- The controller as a whole: the parts that cmd/controller/main.go puts together, one step at a time.
pub mod Coupling
pub mod Assignment
pub mod Completion
pub mod Controller
pub mod Execution
pub mod History
pub mod Loop
pub mod Losses
pub mod Membership
pub mod Nodes
pub mod Invariant
pub mod Placement
pub mod Races
pub mod Reports
pub mod Requests
mod Tests
