-- ===== src/Log/Tests.antt =====
-- A logger at the level of warnings.
use ig_libs.Base.{ℕ, ◌≡◌, refl, List, [], ◌∷◌}
use ig_libs.Log.{
  Level, error, user_error, warn, info, trace, debug, log_base, log, error_log, debug_log,
}

abbrev printed : Level → ℕ → List ℕ → List ℕ
printed level message lines = message ∷ lines

abbrev number : Level → ℕ
number error = 0
number user_error = 1
number warn = 2
number info = 3
number trace = 4
number debug = 5

warnings_and_worse :
    log printed number 2 warn
      (λ w. 7)
      (error_log printed number 2 (λ w. 8) (debug_log printed number 2 (λ w. 9) []))
    ≡ 7 ∷ 8 ∷ []
unfolding log error_log debug_log log_base
warnings_and_worse = refl
