-- ===== src/Apex.antt =====
-- hdv-foundation/apex: the minting of packets, the billing ledger and the gated dispatch.
pub mod Packet
pub mod Ledger
pub mod Router
