-- ===== src/Tests.antt =====
-- Concrete runs of the components: each theorem of the results applied at an input of its own.
mod LookupPolicy
mod EvictionGate
mod ShardLeases
mod AsyncLookup
mod FsTier
mod Scheduler
mod Parser
mod Deltas
