-- ===== src/Core.antt =====
-- packages/core: the shared schemas and the pure rules over them.
pub mod ActionContract
pub mod Evidence
pub mod Hex
pub mod Template
