-- ===== src/Execution.antt =====
-- The guards of packages/execution/src/index.ts, through which every path and every process goes.
pub mod Argv
pub mod Paths
mod Examples
