-- ===== src/Timer/Reentry/Plain.antt =====
-- Callbacks that call no method of the manager: the loop over the list is that of Timer.
use ig_libs.Base.{
  ◌>>=◌, ℕ, zero, suc, ◌≤◌, ◌≡◌, refl, true, arith, inl, inr, ℤ, pos, eqb_ℤ, Bool-cases, Option,
  none, some, List, [], ◌∷◌, ◌++◌, length, ap, ◌∙◌, append-nil, append_assoc, if◌then◌else◌,
}
use ig_libs.Timer.{
  TimerEvent, TimerManager, is_due, call, process_timer_event, process_list, process_timer,
}
use ig_libs.Timer.Reentry.{
  Request, Outcome, ended, fault, process_from, process_timer_with, requested,
}

module _ {W : Type 0} (timer_callback : ℕ → ℕ → W → ℤ × W) where
  abbrev pub silent : ℕ → ℕ → W → ℤ × List Request × W
  silent cb arg w = let (ret, w') = timer_callback cb arg w in (ret, [], w')

  abbrev pub as_outcome : List TimerEvent → Option (TimerManager × W) → Outcome W
  as_outcome passed none = fault
  as_outcome passed (some (m, w)) = ended (passed ++ m) w

  as_outcome-cons :
      (passed : List TimerEvent) (te : TimerEvent) (o : Option (TimerManager × W))
      → as_outcome (passed ++ (te ∷ [])) o
        ≡ as_outcome passed (do (rest, w) ← o; some (te ∷ rest, w))
  as_outcome-cons passed te none = refl
  as_outcome-cons passed te (some (rest, w)) =
      ap (λ m. ended m w) (append_assoc passed (te ∷ []) rest)

  as_outcome-same :
      (passed : List TimerEvent) (o : Option (TimerManager × W))
      → as_outcome passed o ≡ as_outcome passed (do (rest, w) ← o; some (rest, w))
  as_outcome-same passed none = refl
  as_outcome-same passed (some (rest, w)) = refl

  -- With as much fuel as there are timers left, the loop is that of Timer.
  abbrev Same : ℕ → List TimerEvent → List TimerEvent → ℤ → W → Type 0
  Same fuel passed left now w =
      process_from silent fuel passed left now w
      ≡ as_outcome passed (process_list timer_callback left now w)

  process_from-due :
      (fuel : ℕ) (passed : List TimerEvent) (te : TimerEvent) (left : List TimerEvent) (now : ℤ)
      (w : W) (cb : Option ℕ)
      → te.m_callback ≡ cb
      → is_due now te ≡ true
      → ((before : List TimerEvent) (w' : W) → Same fuel before left now w')
      → Same (suc fuel) passed (te ∷ left) now w
  unfolding process_list process_timer_event call process_from requested
  process_from-due fuel passed te left now w none e due ih = rw (due, e) refl
  process_from-due fuel passed te left now w (some cb) e due ih =
      elim (Bool-cases (eqb_ℤ (timer_callback cb te.m_callback_arg w).0 (pos 1))) [
        | inl gone ↦
            rw (due, e, gone)
              (ih passed (timer_callback cb te.m_callback_arg w).1
                ∙ as_outcome-same passed (
                    process_list timer_callback left now (timer_callback cb te.m_callback_arg w).1))
        | inr stays ↦
            rw (due, e, stays)
              (ih (passed ++ (again ∷ [])) (timer_callback cb te.m_callback_arg w).1
                ∙ as_outcome-cons passed again (
                    process_list timer_callback left now (timer_callback cb te.m_callback_arg w).1))
      ]
    where
      again : TimerEvent
      again = record te { m_last_event_time = now; m_callback = some cb }

  process_from-silent :
      (fuel : ℕ) (passed left : List TimerEvent) (now : ℤ) (w : W)
      → length left ≤ fuel
      → Same fuel passed left now w
  unfolding process_list process_timer_event call process_from requested
  process_from-silent fuel passed [] now w h = rw (append-nil passed) refl
  process_from-silent zero passed (te ∷ left) now w h = absurd (omega arith)
  process_from-silent (suc fuel) passed (te ∷ left) now w h = elim (Bool-cases (is_due now te)) [
    | inr idle ↦
        rw (idle, process_from-silent fuel (passed ++ (te ∷ [])) left now w (omega arith))
          (as_outcome-cons passed te (process_list timer_callback left now w))
    | inl due ↦
        process_from-due fuel passed te left now w te.m_callback refl due
          λ before w'. process_from-silent fuel before left now w' (omega arith)
  ]

  -- Where the callbacks call no method of the manager, and the fuel is at least the number of timers, a pass is that of Timer.
  pub process_timer_with-silent :
      (fuel : ℕ) (time : ℤ) (m : TimerManager) (now : ℤ) (w : W)
      → length m ≤ fuel
      → process_timer_with silent fuel time m now w
        ≡ as_outcome [] (process_timer timer_callback time m now w)
  unfolding process_timer_with process_timer
  process_timer_with-silent fuel time m now w h =
      process_from-silent fuel [] m (if eqb_ℤ now (pos 0) then time else now) w h
