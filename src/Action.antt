-- ===== src/Action.antt =====
-- packages/action: what may be dispatched, and when.
pub mod SpeculationFence
pub mod Settledness
pub mod ContractGate
