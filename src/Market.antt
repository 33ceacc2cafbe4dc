-- ===== src/Market.antt =====
-- hdv-foundation/market: the waitlist of the launch.
pub mod Waitlist
pub mod Handlers
