-- ===== src/Executor.antt =====
-- packages/executor: replaying a playbook. packages/core/src/schemas holds its playbooks.
pub mod Json
pub mod Playbook
pub mod DependencyCycle
pub mod PlaybookSchema
pub mod WorldState
pub mod ExpectEvaluator
pub mod TopoOrder
pub mod Attempt
pub mod Run
