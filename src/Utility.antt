-- ===== src/Utility.antt =====
-- features/common4esl/src/esl/utility and esl/src/esl/utility.
pub mod StreamBuffer
pub mod Enum
pub mod Split
pub mod Trim
pub mod Bool
pub mod Base16
pub mod Base64
pub mod Crc32
pub mod UrlCoding
pub mod Escape
pub mod Csv
pub mod Url
pub mod ObjectPool
pub mod SessionPool
pub mod MessageTimer
