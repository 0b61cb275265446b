-- ===== src/Timer/Reentry/Ends.antt =====
-- Whether a pass with callbacks that call the manager ends.
use ig_libs.Base.{
  ℕ, zero, suc, ◌+◌, ◌≤◌, ◌≡◌, refl, sym, subst, arith, inl, inr, ℤ, pos, eqb_ℤ, leb_ℤ, ◌-ℤ◌, true,
  false, Bool-cases, Option, none, some, List, [], ◌∷◌, ◌++◌, length, length-append, ◌==◌,
  if◌then◌else◌,
}
use ig_libs.Timer.{TimerEvent, TimerManager, timer_event, is_valid, is_due, max_timer_event_count}
use ig_libs.Timer.Passes.{AllValid, IsValid, AllIdle, just_called}
use ig_libs.Timer.Removal.{AllValid-append}
use ig_libs.Timer.Reentry.{
  Request, adds, Pass, whole, request, requested, Outcome, ended, endless, process_from,
  process_timer_with, called,
}
use ig_libs.Timer.Reentry.Adds.{OnlyAdds, Grown, requested-Grown}

AllIdle-append :
    (now : ℤ) (m n : TimerManager) → AllIdle now m → AllIdle now n → AllIdle now (m ++ n)
AllIdle-append now [] n h k = k
AllIdle-append now (t ∷ m) n h k = (h.0, AllIdle-append now m n h.1 k)

-- A pass that comes to its end, with the invariant kept and no timer due.
abbrev pub Ends : {W : Type 0} → ℤ → Outcome W → Type 0
Ends {W} now out = (m : TimerManager) × (w : W) × (out ≡ ended m w) × IsValid m × AllIdle now m

module _ {W : Type 0} (timer_callback : ℕ → ℕ → W → ℤ × List Request × W)
    (stays : (cb arg : ℕ) (w : W) → eqb_ℤ (timer_callback cb arg w).0 (pos 1) ≡ false)
    (only_adds : (cb arg : ℕ) (w : W) → OnlyAdds (timer_callback cb arg w).1) where
  abbrev pub EndsFrom : ℕ → List TimerEvent → List TimerEvent → ℤ → W → Type 0
  EndsFrom fuel passed left now w =
      AllValid passed
      → AllIdle now passed
      → AllValid left
      → length passed + length left ≤ max_timer_event_count
      → max_timer_event_count ≤ fuel + length passed
      → Ends now (process_from timer_callback fuel passed left now w)

  abbrev now_called : ℤ → TimerEvent → TimerEvent
  now_called now te = record te { m_last_event_time = now }

  called_valid :
      (now : ℤ) (te : TimerEvent) → is_valid te ≡ true → is_valid (now_called now te) ≡ true
  unfolding is_valid
  called_valid now te h = h

  -- The call of a callback puts the timers that it adds behind those that are left.
  called-EndsFrom :
      (fuel : ℕ) (passed : List TimerEvent) (te : TimerEvent) (left : List TimerEvent) (now : ℤ)
      (w : W) (cb : ℕ)
      → ((before behind : List TimerEvent) (w' : W) → EndsFrom fuel before behind now w')
      → AllValid passed
      → AllIdle now passed
      → AllValid (te ∷ left)
      → length passed + length (te ∷ left) ≤ max_timer_event_count
      → max_timer_event_count ≤ suc fuel + length passed
      → Ends now (
          called timer_callback passed te left now w
            (λ before behind w'. process_from timer_callback fuel before behind now w')
            (some cb))
  called-EndsFrom fuel passed te left now w cb ih v i v' b f =
      rw (grown.1, stays cb te.m_callback_arg w)
        (ih (passed ++ (now_called now te ∷ [])) (left ++ grown.0)
          (timer_callback cb te.m_callback_arg w).2
          (AllValid-append passed (now_called now te ∷ []) v (called_valid now te v'.0, tt))
          (AllIdle-append now passed (now_called now te ∷ []) i (just_called now te v'.0, tt))
          (AllValid-append left grown.0 v'.1 grown.2) few
          (omega (arith, length-append passed (now_called now te ∷ []))))
    where
      before : Pass
      before = record { passed = passed; current = some te; left = left }

      grown : Grown before (requested before (timer_callback cb te.m_callback_arg w).1)
      grown =
          requested-Grown (timer_callback cb te.m_callback_arg w).1 before
            (only_adds cb te.m_callback_arg w) (omega (arith, length-append passed (te ∷ left)))

      few :
          length (passed ++ (now_called now te ∷ [])) + length (left ++ grown.0)
          ≤ max_timer_event_count
      few = omega (
        arith,
        subst (λ q. length (whole q) ≤ max_timer_event_count) (grown.1) (grown.3),
        length-append passed (now_called now te ∷ []),
        length-append passed (te ∷ (left ++ grown.0)),
      )

  due-EndsFrom :
      (fuel : ℕ) (passed : List TimerEvent) (te : TimerEvent) (left : List TimerEvent) (now : ℤ)
      (w : W) (cb : Option ℕ)
      → te.m_callback ≡ cb
      → is_due now te ≡ true
      → ((before behind : List TimerEvent) (w' : W) → EndsFrom fuel before behind now w')
      → EndsFrom (suc fuel) passed (te ∷ left) now w
  unfolding process_from is_valid
  due-EndsFrom fuel passed te left now w none e due ih v i v' b f = absurd (ground arith)
  due-EndsFrom fuel passed te left now w (some cb) e due ih v i v' b f = rw due (
      subst
        (λ c. Ends now (
          called timer_callback passed te left now w
            (λ before behind w'. process_from timer_callback fuel before behind now w') c))
        (sym e) (called-EndsFrom fuel passed te left now w cb ih v i v' b f))

  process_from-Ends :
      (fuel : ℕ) (passed left : List TimerEvent) (now : ℤ) (w : W) → EndsFrom fuel passed left now w
  unfolding process_from
  process_from-Ends fuel passed [] now w v i v' b f =
      (passed, w, refl, record { valid = v; bounded = omega arith }, i)
  process_from-Ends zero passed (te ∷ left) now w v i v' b f = absurd (omega arith)
  process_from-Ends (suc fuel) passed (te ∷ left) now w v i v' b f =
      elim (Bool-cases (is_due now te)) [
        | inr idle ↦ rw idle (
            process_from-Ends fuel (passed ++ (te ∷ [])) left now w
              (AllValid-append passed (te ∷ []) v (v'.0, tt))
              (AllIdle-append now passed (te ∷ []) i (idle, tt)) v'.1
              (omega (arith, length-append passed (te ∷ [])))
              (omega (arith, length-append passed (te ∷ []))))
        | inl due ↦
            due-EndsFrom fuel passed te left now w te.m_callback refl due
              (λ before behind w'. process_from-Ends fuel before behind now w') v i v' b f
      ]

  -- Let the callbacks of a manager call add_timer only, and never return 1. With fuel for 1000 turns or more, a pass comes to its end, with valid
  -- timers, at most 1000, none of which is due at the time of the pass.
  pub process_timer_with-Ends :
      (fuel : ℕ) (time : ℤ) (m : TimerManager) (now : ℤ) (w : W)
      → IsValid m
      → max_timer_event_count ≤ fuel
      → Ends
          (if eqb_ℤ now (pos 0) then time else now)
          (process_timer_with timer_callback fuel time m now w)
  unfolding process_timer_with
  process_timer_with-Ends fuel time m now w v f =
      process_from-Ends fuel [] m (if eqb_ℤ now (pos 0) then time else now) w tt tt v.valid
        (omega (arith, v.bounded)) (omega arith)

-- A callback that returns 1, and adds the same timer again before.
abbrev pub rearms : {W : Type 0} → ℕ → ℕ → ℕ → W → ℤ × List Request × W
rearms interval cb arg w = (pos 1, adds interval (some cb) arg ∷ [], w)

due_again : (interval now : ℕ) → interval ≤ now → leb_ℤ (pos interval) (pos now -ℤ pos 0) ≡ true
due_again interval now h = ground arith

-- The pass over one such timer, due at a time that is not before its new interval, does not end with any fuel.
pub rearming_never_ends :
    {W : Type 0} (interval cb arg : ℕ) (last : ℤ) (now : ℕ) (w : W) (fuel : ℕ)
    → (interval == 0) ≡ false
    → interval ≤ now
    → is_due (pos now) (record {
      m_interval = interval;
      m_last_event_time = last;
      m_callback = some cb;
      m_callback_arg = arg;
    })
      ≡ true
    → process_from
        (rearms interval)
        fuel
        []
        (record {
          m_interval = interval;
          m_last_event_time = last;
          m_callback = some cb;
          m_callback_arg = arg;
        }
          ∷ [])
        (pos now)
        w
      ≡ endless
unfolding process_from requested request is_valid timer_event is_due
rearming_never_ends interval cb arg last now w zero n h due = refl
rearming_never_ends interval cb arg last now w (suc fuel) n h due =
    rw (due, n)
      (rearming_never_ends interval cb arg (pos 0) now w fuel n h (due_again interval now h))
