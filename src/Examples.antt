-- ===== src/Examples.antt =====
-- The theorems at concrete inputs, and runs of the code.
pub mod Worker
pub mod Registry
pub mod Security
pub mod Sandbox
pub mod Api
pub mod Schema
pub mod Intelligence
pub mod Policy
pub mod Versions
pub mod Remote
pub mod Runner
pub mod Readiness
pub mod Validator
