-- ===== src/Perception.antt =====
-- packages/perception: distilled observations and the differences between them.
pub mod Node
pub mod Diff
