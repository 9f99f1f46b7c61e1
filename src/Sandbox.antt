-- ===== src/Sandbox.antt =====
-- app/container_sandbox.py: the container executor, and the executor that prefers it.
pub mod Host
pub mod Setup
pub mod Container
pub mod Fallback
pub mod Isolation
pub mod FailClosed
