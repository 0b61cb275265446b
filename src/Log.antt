-- ===== src/Log.antt =====
-- log.h and log.cpp: which messages reach the logger. Its `_level`, its log_message and the numbers of the levels, which come from log_base, are parameters.
mod Tests
use ig_libs.Base.{ℕ, Bool, true, false, ltb, if◌then◌else◌}

-- The levels that the macros name.
pub data Level : Type 0 where
  error user_error warn info trace debug : Level

-- The message is computed where it is printed only, so it may depend on the state.
module _ {W M : Type 0} (log_message : Level → M → W → W) (level_number : Level → ℕ)
    (logger_level : ℕ) where
  pub log_base : Level → (W → M) → W → W
  log_base level message w =
      if ltb logger_level (level_number level) then w else log_message level (message w) w

  -- The level is tested twice.
  pub log : Level → (W → M) → W → W
  unfolding log_base
  log level message w =
      if ltb logger_level (level_number level) then w else log_base level message w

  abbrev pub error_log : (W → M) → W → W
  unfolding log
  error_log = log error

  abbrev pub debug_log : (W → M) → W → W
  unfolding log
  debug_log = log debug
