-- ===== src/Monitoring/Location.antt =====
-- `Streams::Location` of esl/src/esl/monitoring/Streams.h, and how the appenders compare locations.
-- Pointers, thread ids and times are numbers.
use open_esl.Prelude.{ℕ, ◌≡◌, refl, Bool, true, false, ◌&&◌, arith, ◌==◌}

-- `Streams::Level`
pub data Level : Type 0 where
  trace debug info warn error silent : Level

unfoldable pub level_eq : Level → Level → Bool
level_eq trace trace = true
level_eq debug debug = true
level_eq info info = true
level_eq warn warn = true
level_eq error error = true
level_eq silent silent = true
level_eq _ _ = false

pub record Location : Type 0 where
  pub timestamp : ℕ
  pub level : Level
  pub object : ℕ
  pub type_name : ℕ
  pub function : ℕ
  pub file : ℕ
  pub line : ℕ
  pub thread_id : ℕ
  pub enabled : Bool

-- `equal` of MemBufferAppender.cpp and of OStreamAppender.cpp.
unfoldable pub equal : Location → Location → Bool
unfolding level_eq
equal a b =
    level_eq a.level b.level
    && a.object == b.object
    && a.type_name == b.type_name
    && a.function == b.function
    && a.file == b.file
    && a.thread_id == b.thread_id

-- `Appender::RecordLevel`
pub data RecordLevel : Type 0 where
  off selected all : RecordLevel

-- The `switch` at the start of `write`: whether it goes on.
unfoldable pub is_recorded : RecordLevel → Location → Bool
is_recorded off location = false
is_recorded all location = true
is_recorded selected location = location.enabled

pub level_eq_refl : (l : Level) → level_eq l l ≡ true
unfolding level_eq
level_eq_refl trace = refl
level_eq_refl debug = refl
level_eq_refl info = refl
level_eq_refl warn = refl
level_eq_refl error = refl
level_eq_refl silent = refl

pub equal_refl : (a : Location) → equal a a ≡ true
unfolding equal
equal_refl a = ground (arith, level_eq_refl a.level)
