-- ===== src/Continuation.antt =====
-- packages/continuation: resuming an incomplete task from its last checkpoint.
pub mod Checkpoint
pub mod ResumeGate
pub mod CheckpointStore
pub mod ContinueTask
