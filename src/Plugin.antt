-- ===== src/Plugin.antt =====
-- esl/src/esl/plugin.
pub mod Registry
