-- ===== src/Agent.antt =====
-- packages/agent: the actions of the browser agent and the history that its planner sees.
pub mod Action
pub mod EvidenceGate
pub mod History
