-- ===== src/Timer/Again.antt =====
-- TimerManager::process_timer: what a second pass calls.
use ig_libs.Base.{
  Bool, not, ℕ, ◌≤◌, ◌≡◌, inl, inr, refl, sym, ap, subst, ◌∙◌, arith, ℤ, pos, eqb_ℤ, false, Option,
  none, some, List, [], ◌∷◌, ◌++◌, length, if◌then◌else◌, Bool-cases,
}
use mathlib.Core.Option.{some-injective}
use ig_libs.Timer.{TimerEvent, TimerManager, process_list, process_timer}
use ig_libs.Timer.Passes.{
  AllValid, IsValid, Call, calls_of, elapsed, due, due_calls, recorded, survivors, all_survivors,
  process_list_lem, all_survivors-Valid,
}

module _ (answer : ℕ → ℕ → ℤ) where
  -- Whether a timer that is called is kept.
  abbrev pub kept : TimerEvent → Bool
  kept te = elim te.m_callback [
    | none ↦ false
    | some cb ↦ not (eqb_ℤ (answer cb te.m_callback_arg) (pos 1))
  ]

  -- The calls of a second pass, by the manager before the first. A timer that the first one calls has to be kept, and
  -- its interval has to go by again.
  abbrev pub second_calls_of : ℤ → ℤ → TimerEvent → List Call
  second_calls_of now later te =
      if due now te
      then (if kept te then (if elapsed te.m_interval now later then calls_of te else []) else [])
      else (if due later te then calls_of te else [])

  unfoldable pub second_calls : ℤ → ℤ → TimerManager → List Call
  second_calls now later [] = []
  second_calls now later (te ∷ m) = second_calls_of now later te ++ second_calls now later m

  due_calls-survivors :
      (now later : ℤ) (te : TimerEvent) (m : TimerManager) (cb : Option ℕ)
      → te.m_callback ≡ cb
      → due_calls later (survivors answer now te ++ m)
        ≡ second_calls_of now later te ++ due_calls later m
  unfolding due_calls survivors
  due_calls-survivors now later te m none e = elim (Bool-cases (due now te)) [
    | inr idle ↦ rw (idle) refl
    | inl is_due_now ↦ rw (is_due_now, e) refl
  ]
  due_calls-survivors now later te m (some cb) e = elim (Bool-cases (due now te)) [
    | inr idle ↦ rw (idle) refl
    | inl is_due_now ↦
        rw (is_due_now, e)
          (elim (Bool-cases (eqb_ℤ (answer cb te.m_callback_arg) (pos 1))) [
            | inl gone ↦ rw gone refl
            | inr stays ↦ rw (stays, e) refl
          ])
  ]

  due_calls-all_survivors :
      (now later : ℤ) (m : TimerManager)
      → due_calls later (all_survivors answer now m) ≡ second_calls now later m
  unfolding due_calls all_survivors second_calls
  due_calls-all_survivors now later [] = refl
  due_calls-all_survivors now later (te ∷ m) =
      due_calls-survivors now later te (all_survivors answer now m) te.m_callback refl
      ∙ ap (λ cs. second_calls_of now later te ++ cs) (due_calls-all_survivors now later m)

  -- A pass keeps the manager's invariant, where the callbacks call no method of the manager. A second pass at any time calls, in the order of
  -- the list, the timers that the first did not call and that are due then, and of those that it did call and kept just
  -- the ones whose interval lies between the two passes: a timer is called at most once in its interval. Neither time is 0,
  -- which would be read as the clock's.
  pub process_timer-again :
      (time now later : ℤ) (m : TimerManager) (log : List Call) (m' : TimerManager)
      (log' : List Call)
      → IsValid m
      → eqb_ℤ now (pos 0) ≡ false
      → eqb_ℤ later (pos 0) ≡ false
      → process_timer (recorded answer) time m now log ≡ some (m', log')
      → IsValid m'
        × ((m'' : TimerManager) × (process_timer (recorded answer) time m' later log'
              ≡ some (m'', log' ++ second_calls now later m)))
  unfolding process_timer
  process_timer-again time now later m log m' log' v n l e =
      rw l (valid', (all_survivors answer later m', again))
    where
      ran :
          ◌≡◌ {A = Option (TimerManager × List Call)}
            (some (all_survivors answer now m, log ++ due_calls now m))
            (some (m', log'))
      ran =
          sym (process_list_lem answer m now log v.valid)
          ∙ subst
              (λ b.
                process_list (recorded answer) m (if b then time else now) log ≡ some (m', log'))
              n e

      same : all_survivors answer now m ≡ m'
      same = ap (λ p. p.0) (some-injective _ _ ran)

      kept_valid : AllValid m' × (length m' ≤ length m)
      kept_valid =
          subst (λ l. AllValid l × (length l ≤ length m)) same
            (all_survivors-Valid answer now m v.valid)

      valid' : IsValid m'
      valid' = record { valid = kept_valid.0; bounded = omega (arith, kept_valid.1, v.bounded) }

      again :
          process_list (recorded answer) m' later log'
          ≡ some (all_survivors answer later m', log' ++ second_calls now later m)
      again =
          process_list_lem answer m' later log' kept_valid.0
          ∙ ap (λ cs. some (all_survivors answer later m', log' ++ cs))
              (ap (due_calls later) (sym same) ∙ due_calls-all_survivors now later m)
