-- ===== src/Worker.antt =====
-- The sandbox worker: app/sandbox_worker.py and app/worker_protocol.py.
pub mod Nonce
pub mod Protocol
pub mod Auth
pub mod Service
