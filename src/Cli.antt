-- ===== src/Cli.antt =====
-- cmd/slctl: the command line.
pub mod Cancellation
pub mod Commands
pub mod Submission
pub mod Tables
mod Tests
