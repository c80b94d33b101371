-- ===== src/Object.antt =====
-- features/common4esl/src/common4esl/object: the contexts that hold objects by their ids.
pub mod ProcessingContext
pub mod ProcedureRun
