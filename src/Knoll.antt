-- ===== src/Knoll.antt =====
-- hdv-foundation/knoll: the auditor, its laws, the freeze, the gate and the audit hash chain.
pub mod Audit
pub mod Freeze
pub mod Laws
pub mod Structure
pub mod Rate
pub mod Validator
pub mod HashChain
pub mod ActiveRouter
pub mod HollowayBridge
