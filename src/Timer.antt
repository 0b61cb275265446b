-- ===== src/Timer.antt =====
-- timer.h and timer.cpp: the timers of one thread. The callbacks are a parameter: each call takes the
-- state that the callbacks share, and returns its value beside the new one. In Reentry they may call the manager.
pub mod Passes
pub mod Again
pub mod Removal
pub mod Reentry
mod Tests
use ig_libs.Base.{
  zero, suc, ◌>>=◌, ℕ, ℤ, pos, negsuc, ◌-ℤ◌, leb_ℤ, eqb_ℤ, Bool, true, false, not, ◌&&◌, Option,
  none, some, List, [], ◌∷◌, ◌++◌, length, leb, ◌==◌, if◌then◌else◌,
}

-- `m_callback` is `none` for NULL.
pub record TimerEvent : Type 0 where
  pub m_interval : ℕ
  pub m_last_event_time : ℤ
  pub m_callback : Option ℕ
  pub m_callback_arg : ℕ

pub timer_event : ℕ → Option ℕ → ℕ → TimerEvent
timer_event interval cb cb_arg = record {
  m_interval = interval;
  m_last_event_time = pos 0;
  m_callback = cb;
  m_callback_arg = cb_arg;
}

abbrev pub not_null : Option ℕ → Bool
not_null none = false
not_null (some cb) = true

pub is_valid : TimerEvent → Bool
is_valid te = not (te.m_interval == 0) && not_null te.m_callback

abbrev pub same_pointer : Option ℕ → Option ℕ → Bool
same_pointer none none = true
same_pointer (some a) (some b) = a == b
same_pointer _ _ = false

-- `operator ==`, with the left operand's validity test first.
pub equal_events : TimerEvent → TimerEvent → Bool
equal_events a b =
    if not (is_valid a)
    then true
    else a.m_interval == b.m_interval
      && same_pointer a.m_callback b.m_callback
      && a.m_callback_arg == b.m_callback_arg

-- `operator !=`, which calls itself. With `depth` calls on the stack left; `none` is a stack that is used up.
pub not_equal_events : ℕ → TimerEvent → TimerEvent → Option Bool
not_equal_events zero a b = none
not_equal_events (suc depth) a b = do differ ← not_equal_events depth a b; some (not differ)

abbrev pub max_timer_event_count : ℕ
max_timer_event_count = 1000

abbrev pub TimerManager : Type 0
TimerManager = List TimerEvent

pub add_timer : TimerManager → ℕ → Option ℕ → ℕ → ℤ × TimerManager
add_timer m interval cb cb_arg =
    let te = timer_event interval cb cb_arg in
    if leb max_timer_event_count (length m)
    then (negsuc 0, m)
    else (if not (is_valid te) then (negsuc 0, m) else (pos 0, m ++ (te ∷ [])))

-- `list::remove(te)`
list_remove : TimerEvent → TimerManager → TimerManager
list_remove te [] = []
list_remove te (t ∷ m) = let rest = list_remove te m in if equal_events t te then rest else t ∷ rest

pub remove_timer : TimerManager → ℕ → Option ℕ → ℕ → ℤ × TimerManager
remove_timer m interval cb cb_arg =
    let te = timer_event interval cb cb_arg in
    if not (is_valid te) then (negsuc 0, m) else (pos 0, list_remove te m)

pub clear : TimerManager → TimerManager
clear m = []

-- `now - m_last_event_time >= m_interval`
pub is_due : ℤ → TimerEvent → Bool
is_due now te = leb_ℤ (pos te.m_interval) (now -ℤ te.m_last_event_time)

module _ {W : Type 0} (timer_callback : ℕ → ℕ → W → ℤ × W) where
  -- A call through a NULL callback is a fault, `none`.
  call : Option ℕ → ℕ → W → Option (ℤ × W)
  call none arg w = none
  call (some cb) arg w = some (timer_callback cb arg w)

  process_timer_event : TimerEvent → ℤ → W → Option (ℤ × TimerEvent × W)
  process_timer_event te now w =
      if is_due now te
      then (do
        (ret, w') ← call te.m_callback te.m_callback_arg w
        some (ret, record te { m_last_event_time = now }, w'))
      else some (pos 0, te, w)

  pub process_list : TimerManager → ℤ → W → Option (TimerManager × W)
  process_list [] now w = some ([], w)
  process_list (te ∷ m) now w = do
    (ret, te', w') ← process_timer_event te now w
    (rest, w'') ← process_list m now w'
    some (if eqb_ℤ ret (pos 1) then rest else te' ∷ rest, w'')

  -- `time(0)` is an argument.
  pub process_timer : ℤ → TimerManager → ℤ → W → Option (TimerManager × W)
  process_timer time m now w = process_list m (if eqb_ℤ now (pos 0) then time else now) w
