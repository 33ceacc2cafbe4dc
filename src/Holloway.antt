-- ===== src/Holloway.antt =====
-- hdv-foundation/holloway: the sovereign layer above the agents.
pub mod Identity
pub mod Ledger
pub mod Sovereign
pub mod Override
