-- ===== src/Io.antt =====
-- esl/src/esl/io: readers, writers, consumers and the adapters between them.
pub mod Input
pub mod Output
pub mod Buffered
