-- ===== src/System.antt =====
-- esl/src/esl/system, and its implementation in features/common4esl/src/common4esl/system.
pub mod Arguments
pub mod Task
pub mod TaskPool
