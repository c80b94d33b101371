-- ===== src/Database.antt =====
-- esl/src/esl/database.
pub mod Number
pub mod Conversion
pub mod Integers
pub mod Field
pub mod ResultSet
pub mod Column
