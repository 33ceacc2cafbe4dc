-- ===== src/Tests.antt =====
-- Runs of the models on concrete inputs, and an instance of each theorem that has hypotheses.
mod Packets
mod Gate
mod Dispatches
mod Chain
mod Leases
mod Managers
mod Fleets
mod Accounts
mod Stores
mod Workflows
mod Sovereigns
mod Signups
