-- ===== src/Research.antt =====
-- internal/research: the run of a research block, with the checks of what it leaves behind.
pub mod Validator
pub mod Terminal
pub mod Runtime
