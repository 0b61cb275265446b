-- ===== src/Timer/Tests.antt =====
-- Timers at concrete times.
use ig_libs.Base.{ℕ, ◌≡◌, refl, arith, ℤ, pos, if◌then◌else◌, ◌==◌, some, [], ◌∷◌, ◌++◌}
use ig_libs.Timer.{
  TimerManager, is_valid, is_due, process_timer, process_list, process_timer_event, call,
  remove_timer,
}
use ig_libs.Timer.Again.{second_calls, process_timer-again}
use ig_libs.Timer.Passes.{IsValid, recorded, all_survivors, due_calls, process_timer-recorded}
use ig_libs.Timer.Removal.{RemoveResult, remove_timer-Without}

-- Every 10 seconds, called at 100; and a new one for every 60 seconds.
abbrev two_timers : TimerManager
two_timers =
    record { m_interval = 10; m_last_event_time = pos 100; m_callback = some 1; m_callback_arg = 7 }
    ∷ record { m_interval = 60; m_last_event_time = pos 0; m_callback = some 2; m_callback_arg = 8 }
    ∷ []

-- The second callback asks to be removed.
abbrev once_for_two : ℕ → ℕ → ℤ
once_for_two cb arg = if cb == 2 then pos 1 else pos 0

two_timers-IsValid : IsValid two_timers
unfolding is_valid
two_timers-IsValid = record { valid = (refl, (refl, tt)); bounded = omega arith }

process_timer-recorded_example :
    process_timer (recorded once_for_two) (pos 0) two_timers (pos 105) []
    ≡ some (all_survivors once_for_two (pos 105) two_timers, [] ++ due_calls (pos 105) two_timers)
process_timer-recorded_example =
    process_timer-recorded once_for_two (pos 0) (pos 105) two_timers [] two_timers-IsValid.valid

abbrev one_timer : TimerManager
one_timer =
    record { m_interval = 10; m_last_event_time = pos 100; m_callback = some 1; m_callback_arg = 7 }
    ∷ []

process_timer-again_example :
    IsValid one_timer
    × ((m'' : TimerManager) × (process_timer
            (recorded once_for_two)
            (pos 0)
            one_timer
            (pos 115)
            ((2, 8) ∷ [])
          ≡ some (m'', ((2, 8) ∷ []) ++ second_calls once_for_two (pos 105) (pos 115) two_timers)))
unfolding process_timer process_list process_timer_event call is_due
process_timer-again_example =
    process_timer-again once_for_two (pos 0) (pos 105) (pos 115) two_timers [] one_timer
      ((2, 8) ∷ []) two_timers-IsValid refl refl refl

-- At 115 the first timer is called, and the second is gone.
called_at_115 : second_calls once_for_two (pos 105) (pos 115) two_timers ≡ (1, 7) ∷ []
unfolding second_calls
called_at_115 = refl

remove_timer-Without_example :
    RemoveResult two_timers 60 (some 2) 8 (remove_timer two_timers 60 (some 2) 8)
remove_timer-Without_example =
    remove_timer-Without two_timers 60 (some 2) 8 two_timers-IsValid.valid
