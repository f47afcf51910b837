-- ===== src/Gates.antt =====
-- saffron/gates: the gate contract, the core gates and the comparison with the baseline.
pub mod Contract
pub mod Glob
pub mod Scope
pub mod Baseline
pub mod Census
pub mod Criteria
pub mod Comparison
pub mod Tokens
pub mod Diff
pub mod Size
pub mod Selection
pub mod Revert
pub mod Witness
pub mod Execution
pub mod Runner
pub mod Patch
pub mod Integrity
pub mod Derived
pub mod Suite
