-- ===== src/Providers.antt =====
pub mod Select
pub mod Codex
pub mod Claude
pub mod Commands
pub mod Discovery
pub mod Opencode
