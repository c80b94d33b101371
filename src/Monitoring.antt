-- ===== src/Monitoring.antt =====
-- esl/src/esl/monitoring, and its implementation in features/common4esl/src/common4esl/monitoring.
pub mod Location
pub mod MemBufferAppender
pub mod OstreamAppender
