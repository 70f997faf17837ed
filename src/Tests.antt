-- ===== src/Tests.antt =====
-- Tests and examples: the theorems at concrete inputs.
pub mod Data
mod Parts
mod Runs
mod Lives
mod Mail
mod Storage
mod Approvals
