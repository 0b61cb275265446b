-- ===== src/Timer/Reentry/Tests.antt =====
-- Passes with callbacks that call the manager.
use ig_libs.Base.{ℕ, zero, suc, ◌≡◌, refl, arith, ℤ, pos, eqb_ℤ, false, some, List, [], ◌∷◌}
use ig_libs.Timer.{TimerManager, is_valid, is_due, timer_event, equal_events}
use ig_libs.Timer.Passes.{IsValid}
use ig_libs.Timer.Reentry.{
  Request, adds, removes, clears, ended, fault, request, requested, process_from,
  process_timer_with,
}
use ig_libs.Timer.Reentry.Adds.{OnlyAdds}
use ig_libs.Timer.Reentry.Ends.{Ends, process_timer_with-Ends}

abbrev one_new : TimerManager
one_new = timer_event 10 (some 1) 7 ∷ []

one_new-IsValid : IsValid one_new
unfolding is_valid timer_event
one_new-IsValid = record { valid = (refl, tt); bounded = omega arith }

-- The first call adds a timer; the state counts the calls.
abbrev adds_once : ℕ → ℕ → ℕ → ℤ × List Request × ℕ
adds_once cb arg zero = (pos 0, adds 20 (some 2) 8 ∷ [], 1)
adds_once cb arg (suc w) = (pos 0, [], suc (suc w))

adds_once_stays : (cb arg : ℕ) (w : ℕ) → eqb_ℤ (adds_once cb arg w).0 (pos 1) ≡ false
adds_once_stays cb arg zero = refl
adds_once_stays cb arg (suc w) = refl

adds_once-OnlyAdds : (cb arg : ℕ) (w : ℕ) → OnlyAdds (adds_once cb arg w).1
adds_once-OnlyAdds cb arg zero = tt
adds_once-OnlyAdds cb arg (suc w) = tt

process_timer_with-Ends_example :
    Ends (pos 100) (process_timer_with adds_once 1000 (pos 0) one_new (pos 100) 0)
process_timer_with-Ends_example =
    process_timer_with-Ends adds_once adds_once_stays adds_once-OnlyAdds 1000 (pos 0) one_new
      (pos 100) 0 one_new-IsValid (omega arith)

-- The timer that was added is called in the same pass.
added_and_called :
    process_timer_with adds_once 3 (pos 0) one_new (pos 100) 0
    ≡ ended
        (record {
          m_interval = 10;
          m_last_event_time = pos 100;
          m_callback = some 1;
          m_callback_arg = 7;
        }
          ∷ record {
            m_interval = 20;
            m_last_event_time = pos 100;
            m_callback = some 2;
            m_callback_arg = 8;
          }
          ∷ [])
        2
unfolding process_timer_with process_from requested request is_valid is_due timer_event
added_and_called = refl

-- A callback that removes its own timer, or clears the manager.
abbrev asks : Request → ℕ → ℕ → ℕ → ℤ × List Request × ℕ
asks r cb arg w = (pos 0, r ∷ [], w)

own_removal_faults :
    process_timer_with (asks (removes 10 (some 1) 7)) 3 (pos 0) one_new (pos 100) 0 ≡ fault
unfolding process_timer_with process_from requested request is_valid is_due timer_event equal_events
own_removal_faults = refl

clear_faults : process_timer_with (asks clears) 3 (pos 0) one_new (pos 100) 0 ≡ fault
unfolding process_timer_with process_from requested request is_valid is_due timer_event
clear_faults = refl
