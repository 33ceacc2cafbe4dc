-- ===== src/Nodes.antt =====
-- hdv-foundation/nodes: the leases on node slices, the matrix of nodes and the live fleet.
pub mod Lease
pub mod Matrix
pub mod Fleet
pub mod Managers
