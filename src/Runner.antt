-- ===== src/Runner.antt =====
-- The runner (odooctl/runner/worker.py): it claims a queued operation, checks its token, role and
-- nonce, and runs it under the lock of its environment.
pub mod Nonces
pub mod Guards
pub mod Execute
pub mod Loop
mod Examples
