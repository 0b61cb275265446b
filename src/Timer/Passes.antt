-- ===== src/Timer/Passes.antt =====
-- TimerManager::process_timer: which callbacks a pass makes, and what it leaves.
use ig_libs.Base.{
  Bool, leb, ◌+◌, pos_part, neg_part, ℕ, suc, ◌≤◌, ◌≡◌, inl, inr, refl, sym, ap, ◌∙◌, arith, ℤ, pos,
  eqb_ℤ, true, false, Option, none, some, List, [], ◌∷◌, ◌++◌, append_assoc, append-nil, length,
  if◌then◌else◌, Bool-cases,
}
use ig_libs.Timer.{
  TimerEvent, TimerManager, is_valid, is_due, call, process_timer_event, process_list,
  process_timer, max_timer_event_count,
}

-- Every timer of the list has an interval and a callback.
abbrev pub AllValid : TimerManager → Type 0
AllValid [] = Unit {0}
AllValid (te ∷ m) = (is_valid te ≡ true) × AllValid m

pub record IsValid (m : TimerManager) : Type 0 where
  pub valid : AllValid m
  pub bounded : length m ≤ max_timer_event_count

-- A call that a pass makes: the callback and its argument.
abbrev pub Call : Type 0
Call = ℕ × ℕ

abbrev pub calls_of : TimerEvent → List Call
calls_of te = elim te.m_callback [ none ↦ [] | some cb ↦ (cb, te.m_callback_arg) ∷ [] ]

-- Whether `interval` seconds or more lie between `last` and `now`.
abbrev pub elapsed : ℕ → ℤ → ℤ → Bool
elapsed interval last now =
    leb (interval + pos_part last + neg_part now) (pos_part now + neg_part last)

abbrev pub due : ℤ → TimerEvent → Bool
due now te = elapsed te.m_interval te.m_last_event_time now

is_due-due : (now : ℤ) (te : TimerEvent) → is_due now te ≡ due now te
unfolding is_due
is_due-due now te = ground arith

-- The callbacks of the timers that are due, in the order of the list.
unfoldable pub due_calls : ℤ → TimerManager → List Call
due_calls now [] = []
due_calls now (te ∷ m) = (if due now te then calls_of te else []) ++ due_calls now m

-- Callbacks whose answers depend on nothing else, and that are recorded.
abbrev pub recorded : (ℕ → ℕ → ℤ) → ℕ → ℕ → List Call → ℤ × List Call
recorded answer cb arg log = (answer cb arg, log ++ ((cb, arg) ∷ []))

-- Nothing that a pass leaves is due at the time of the pass.
pub just_called :
    (now : ℤ) (te : TimerEvent)
    → is_valid te ≡ true
    → is_due now (record te { m_last_event_time = now }) ≡ false
unfolding is_valid is_due
just_called now te v = ground arith

abbrev pub AllIdle : ℤ → TimerManager → Type 0
AllIdle now [] = Unit {0}
AllIdle now (te ∷ m) = (is_due now te ≡ false) × AllIdle now m

module _ (answer : ℕ → ℕ → ℤ) where
  -- What becomes of one timer.
  unfoldable pub survivors : ℤ → TimerEvent → TimerManager
  survivors now te =
      if due now te
      then elim te.m_callback [
        | none ↦ []
        | some cb ↦
            if eqb_ℤ (answer cb te.m_callback_arg) (pos 1)
            then []
            else record te { m_last_event_time = now } ∷ []
      ]
      else te ∷ []

  unfoldable pub all_survivors : ℤ → TimerManager → TimerManager
  all_survivors now [] = []
  all_survivors now (te ∷ m) = survivors now te ++ all_survivors now m

  abbrev Recorded : TimerManager → ℤ → List Call → Type 0
  Recorded m now log =
      process_list (recorded answer) m now log ≡ some (all_survivors now m, log ++ due_calls now m)

  process_list-cons :
      (te : TimerEvent) (m : TimerManager) (now : ℤ) (log : List Call) (cb : Option ℕ)
      → te.m_callback ≡ cb
      → is_valid te ≡ true
      → ((log' : List Call) → Recorded m now log')
      → Recorded (te ∷ m) now log
  unfolding process_list process_timer_event call is_valid all_survivors survivors due_calls
  process_list-cons te m now log none e v ih = absurd (ground arith)
  process_list-cons te m now log (some cb) e v ih = elim (Bool-cases (due now te)) [
    | inr idle ↦ rw (is_due-due now te, idle, ih log) refl
    | inl is_due_now ↦ elim (Bool-cases (eqb_ℤ (answer cb te.m_callback_arg) (pos 1))) [
      | inl gone ↦
          rw (is_due-due now te, is_due_now, e, ih (log ++ ((cb, te.m_callback_arg) ∷ [])), gone)
            (ap (λ l. some (all_survivors now m, l))
              (append_assoc log ((cb, te.m_callback_arg) ∷ []) (due_calls now m)))
      | inr stays ↦
          rw (is_due-due now te, is_due_now, e, ih (log ++ ((cb, te.m_callback_arg) ∷ [])), stays)
            (ap (λ l. some (again (some cb) ∷ all_survivors now m, l))
                (append_assoc log ((cb, te.m_callback_arg) ∷ []) (due_calls now m))
              ∙ ap
                  (λ c. some (
                    again c ∷ all_survivors now m,
                    log ++ ((cb, te.m_callback_arg) ∷ due_calls now m),
                  ))
                  (sym e))
    ]
  ]
    where
      again : Option ℕ → TimerEvent
      again c = record te { m_last_event_time = now; m_callback = c }

  pub process_list_lem :
      (m : TimerManager) (now : ℤ) (log : List Call) → AllValid m → Recorded m now log
  unfolding process_list all_survivors due_calls
  process_list_lem [] now log v = rw (append-nil log) refl
  process_list_lem (te ∷ m) now log v =
      process_list-cons te m now log te.m_callback refl v.0 λ log'. process_list_lem m now log' v.1

  -- A pass over valid timers, whose callbacks call no method of the manager, never faults; it makes exactly the calls of the timers whose
  -- interval has gone by since their last call, in the order of the list, and takes off exactly those whose call returned 1.
  pub process_timer-recorded :
      (time now : ℤ) (m : TimerManager) (log : List Call)
      → AllValid m
      → let at = if eqb_ℤ now (pos 0) then time else now in
        process_timer (recorded answer) time m now log
        ≡ some (all_survivors at m, log ++ due_calls at m)
  unfolding process_timer
  process_timer-recorded time now m log v =
      process_list_lem m (if eqb_ℤ now (pos 0) then time else now) log v

  survivors-Valid :
      (now : ℤ) (te : TimerEvent) (m : TimerManager) (cb : Option ℕ)
      → te.m_callback ≡ cb
      → is_valid te ≡ true
      → AllValid m
      → AllValid (survivors now te ++ m) × (length (survivors now te ++ m) ≤ suc (length m))
  unfolding survivors is_valid
  survivors-Valid now te m none e v h = absurd (ground arith)
  survivors-Valid now te m (some cb) e v h = elim (Bool-cases (due now te)) [
    | inr idle ↦ rw idle ((v, h), omega arith)
    | inl is_due_now ↦
        rw (is_due_now, e)
          (elim (Bool-cases (eqb_ℤ (answer cb te.m_callback_arg) (pos 1))) [
            | inl gone ↦ rw gone (h, omega arith)
            | inr stays ↦ rw stays ((v, h), omega arith)
          ])
  ]

  pub all_survivors-Valid :
      (now : ℤ) (m : TimerManager)
      → AllValid m
      → AllValid (all_survivors now m) × (length (all_survivors now m) ≤ length m)
  unfolding all_survivors
  all_survivors-Valid now [] v = (tt, omega arith)
  all_survivors-Valid now (te ∷ m) v =
      let ih = all_survivors-Valid now m v.1 in
      let k = survivors-Valid now te (all_survivors now m) te.m_callback refl v.0 ih.0 in
      (k.0, omega (arith, k.1, ih.1))
