-- ===== src/Agent.antt =====
-- internal/node: the executor of a node (executor.go).
pub mod Answers
pub mod Environment
pub mod Executor
pub mod Node
pub mod Slot
mod Tests
