-- ===== src/Prompts.antt =====
-- src/workflow.rs: the prompts.
pub mod Rules
pub mod ReviewRules
pub mod Sections
pub mod Initial
pub mod Review
pub mod Repair
pub mod Feedback
pub mod Render
pub mod Carried
