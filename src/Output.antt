-- ===== src/Output.antt =====
-- Package internal/output: what an agent reads of a command's output.
pub mod Patterns
pub mod Filter
pub mod Process
