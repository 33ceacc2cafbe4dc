-- ===== src/Config.antt =====
-- hdv-foundation/config: the routing contract, the duties of the primary triad, packet hashing.
pub mod Routing
pub mod Duty
pub mod Hash
