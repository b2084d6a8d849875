-- ===== src/Session.antt =====
-- packages/session: speculation behind the effect fence, and the pipeline that schedules it.
pub mod EffectFence
pub mod Manager
pub mod Pipeline
pub mod Prefetch
