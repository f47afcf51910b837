-- ===== src/Samples.antt =====
-- Small inputs, what the program does on them, and the theorems at them.
mod Contract
mod Runs
mod Diffs
mod Globs
mod Suites
mod Criteria
mod Tokens
mod Queues
mod Scans
mod Marks
mod Specs
