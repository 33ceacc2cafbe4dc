-- ===== src/Auth.antt =====
-- hdv-foundation/auth: accounts, passwords and sessions.
pub mod Password
pub mod Service
