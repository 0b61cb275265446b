-- ===== src/Timer/Reentry.antt =====
-- process_timer with callbacks that call the manager: each call of a callback gives, beside its value, the manager's methods that it
-- called, in order. The manager is a std::list, in which an iterator stays good until its own element is erased.
pub mod Whole
pub mod Plain
pub mod Adds
pub mod Ends
mod Tests
use ig_libs.Base.{
  ℕ, zero, suc, ◌+◌, ℤ, pos, eqb_ℤ, Bool, not, Option, none, some, List, [], ◌∷◌, ◌++◌, length, leb,
  ◌==◌, if◌then◌else◌,
}
use ig_libs.Timer.{
  TimerEvent, TimerManager, timer_event, is_valid, equal_events, max_timer_event_count, list_remove,
  is_due,
}

-- add_timer, remove_timer or clear.
pub data Request : Type 0 where
  adds : (interval : ℕ) (cb : Option ℕ) (cb_arg : ℕ) → Request
  removes : (interval : ℕ) (cb : Option ℕ) (cb_arg : ℕ) → Request
  clears : Request

-- The list during a callback: before the iterator, at it, `none` once it is erased, and behind it.
pub record Pass : Type 0 where
  pub passed : List TimerEvent
  pub current : Option TimerEvent
  pub left : List TimerEvent

abbrev pub as_list : Option TimerEvent → List TimerEvent
as_list none = []
as_list (some te) = te ∷ []

abbrev pub whole : Pass → TimerManager
whole p = p.passed ++ (as_list p.current ++ p.left)

abbrev pub kept : TimerEvent → Option TimerEvent → Option TimerEvent
kept te none = none
kept te (some t) = if equal_events t te then none else some t

pub request : Pass → Request → Pass
unfolding list_remove
request p (adds interval cb cb_arg) =
    let te = timer_event interval cb cb_arg in
    if leb max_timer_event_count (length (whole p))
    then p
    else (if not (is_valid te) then p else record p { left = p.left ++ (te ∷ []) })
request p (removes interval cb cb_arg) =
    let te = timer_event interval cb cb_arg in
    if not (is_valid te) then p else record {
      passed = list_remove te p.passed;
      current = kept te p.current;
      left = list_remove te p.left;
    }
request p clears = record { passed = []; current = none; left = [] }

unfoldable pub requested : Pass → List Request → Pass
requested p [] = p
requested p (r ∷ rs) = requested (request p r) rs

-- How a pass ends: with the list and the state, by a use of an erased element or a NULL callback, or not within the fuel.
pub data Outcome (W : Type 0) : Type 0 where
  ended : TimerManager → W → Outcome W
  fault : Outcome W
  endless : Outcome W

module _ {W : Type 0} (timer_callback : ℕ → ℕ → W → ℤ × List Request × W) where
  abbrev pub marked :
      ℤ → ℤ → Pass → (List TimerEvent → List TimerEvent → Outcome W) → Option TimerEvent → Outcome W
  marked now ret p next none = fault
  marked now ret p next (some te) =
      if eqb_ℤ ret (pos 1)
      then next p.passed p.left
      else next (p.passed ++ (record te { m_last_event_time = now } ∷ [])) p.left

  abbrev pub called :
      List TimerEvent
      → TimerEvent
      → List TimerEvent
      → ℤ
      → W
      → (List TimerEvent → List TimerEvent → W → Outcome W)
      → Option ℕ
      → Outcome W
  called passed te left now w next none = fault
  called passed te left now w next (some cb) =
      let (ret, requests, w') = timer_callback cb te.m_callback_arg w in
      let p = requested (record { passed = passed; current = some te; left = left }) requests in
      marked now ret p (λ before behind. next before behind w') p.current

  -- The loop, from the iterator on.
  unfoldable pub process_from : ℕ → List TimerEvent → List TimerEvent → ℤ → W → Outcome W
  process_from fuel passed [] now w = ended passed w
  process_from zero passed (te ∷ left) now w = endless
  process_from (suc fuel) passed (te ∷ left) now w =
      let skipped = process_from fuel (passed ++ (te ∷ [])) left now w in
      let run =
        called passed te left now w (λ before behind w'. process_from fuel before behind now w')
          te.m_callback in
      if is_due now te then run else skipped

  pub process_timer_with : ℕ → ℤ → TimerManager → ℤ → W → Outcome W
  process_timer_with fuel time m now w =
      process_from fuel [] m (if eqb_ℤ now (pos 0) then time else now) w
