-- ===== src/Timer/Removal.antt =====
-- TimerManager::add_timer and remove_timer.
use ig_libs.Base.{
  zero, suc, ℕ, ◌≤◌, ◌<◌, ◌≡◌, ◌≢◌, ◌⊎◌, inl, inr, refl, sym, ap, ◌∙◌, arith, ℤ, pos, negsuc, true,
  false, not, Option, none, some, [], ◌∷◌, ◌++◌, length, length-append, leb, ◌==◌, if◌then◌else◌,
  Bool-cases, ==_iff, leb→le,
}
use ig_libs.Timer.{
  not_equal_events, TimerEvent, TimerManager, timer_event, is_valid, add_timer, remove_timer,
  list_remove, equal_events, not_null, same_pointer, max_timer_event_count,
}
use ig_libs.Timer.Passes.{AllValid, IsValid}

-- What tells timers apart: the interval, the callback and its argument.
abbrev pub Key : Type 0
Key = ℕ × Option ℕ × ℕ

abbrev pub key : TimerEvent → Key
key te = (te.m_interval, te.m_callback, te.m_callback_arg)

-- The second list is the first, in order, less the timers of that key.
pub data Without (k : Key) : TimerManager → TimerManager → Type 0 where
  nil : Without k [] []
  drop : {t : TimerEvent} {m m' : TimerManager} → key t ≡ k → Without k m m' → Without k (t ∷ m) m'
  keep :
      {t : TimerEvent} {m m' : TimerManager}
      → key t ≢ k
      → Without k m m'
      → Without k (t ∷ m) (t ∷ m')

same_pointer_iff :
    (a b : Option ℕ) → (same_pointer a b ≡ true → a ≡ b) × (a ≡ b → same_pointer a b ≡ true)
same_pointer_iff none none = (λ h. refl, λ h. refl)
same_pointer_iff none (some b) = (λ h. cc, λ h. cc)
same_pointer_iff (some a) none = (λ h. cc, λ h. cc)
same_pointer_iff (some a) (some b) = (λ h. ap some ((==_iff a b).0 h), λ h. ground (arith, h))

equal_events-key :
    (a b : TimerEvent)
    → is_valid a ≡ true
    → (equal_events a b ≡ true → key a ≡ key b) × (key a ≡ key b → equal_events a b ≡ true)
unfolding equal_events
equal_events-key a b v = (
  λ h. ground (arith, same_pointer_iff a.m_callback b.m_callback),
  λ h. ground (arith, same_pointer_iff a.m_callback b.m_callback),
)

list_remove-Without :
    (te : TimerEvent) (m : TimerManager) → AllValid m → Without (key te) m (list_remove te m)
unfolding list_remove
list_remove-Without te [] v = nil
list_remove-Without te (t ∷ m) v = elim (Bool-cases (equal_events t te)) [
  | inl same ↦ rw same (drop ((equal_events-key t te v.0).0 same) (list_remove-Without te m v.1))
  | inr other ↦ rw other (
      keep (λ e. differ (sym other ∙ (equal_events-key t te v.0).1 e))
        (list_remove-Without te m v.1))
]
  where
    differ : false ≡ true → ⊥
    differ e = cc

abbrev pub RemoveResult : TimerManager → ℕ → Option ℕ → ℕ → ℤ × TimerManager → Type 0
RemoveResult m interval cb cb_arg (code, m') =
    ((interval ≢ 0) × (cb ≢ none) × (code ≡ pos 0) × Without (interval, cb, cb_arg) m m')
    ⊎ (((interval ≡ 0) ⊎ (cb ≡ none)) × (code ≡ negsuc 0) × (m' ≡ m))

-- From a manager of valid timers, remove_timer with an interval other than 0 and a callback other than NULL takes off all timers of the interval, the callback
-- and the argument given and no other, keeps the order and returns 0; for an interval of 0 or a NULL callback it
-- returns -1 and changes nothing.
pub remove_timer-Without :
    (m : TimerManager) (interval : ℕ) (cb : Option ℕ) (cb_arg : ℕ)
    → AllValid m
    → RemoveResult m interval cb cb_arg (remove_timer m interval cb cb_arg)
unfolding remove_timer is_valid timer_event
remove_timer-Without m interval cb cb_arg v = elim (Bool-cases (interval == 0)) [
  | inl e ↦ rw e (inr (inl ((==_iff interval 0).0 e), refl, refl))
  | inr e ↦ rw e (by cb (ground arith))
]
  where
    by :
        (cb : Option ℕ)
        → interval ≢ 0
        → RemoveResult m interval cb cb_arg (
            if not (not_null cb)
            then (negsuc 0, m)
            else (pos 0, list_remove (timer_event interval cb cb_arg) m))
    by none n = inr (inr refl, refl, refl)
    by (some cb) n =
        inl (n, (λ h. cc), refl, list_remove-Without (timer_event interval (some cb) cb_arg) m v)

pub AllValid-append : (m n : TimerManager) → AllValid m → AllValid n → AllValid (m ++ n)
AllValid-append [] n v w = w
AllValid-append (t ∷ m) n v w = (v.0, AllValid-append m n v.1 w)

abbrev pub AddResult : TimerManager → ℕ → Option ℕ → ℕ → ℤ × TimerManager → Type 0
AddResult m interval cb cb_arg (code, m') =
    IsValid m'
    × (((length m < max_timer_event_count)
          × (interval ≢ 0)
          × (cb ≢ none)
          × (code ≡ pos 0)
          × (m' ≡ m ++ (timer_event interval cb cb_arg ∷ [])))
        ⊎ (((max_timer_event_count ≤ length m) ⊎ ((interval ≡ 0) ⊎ (cb ≡ none)))
            × (code ≡ negsuc 0)
            × (m' ≡ m)))

accept :
    (m : TimerManager) (interval : ℕ) (cb : Option ℕ) (cb_arg : ℕ)
    → IsValid m
    → (interval == 0) ≡ false
    → leb max_timer_event_count (length m) ≡ false
    → AddResult m interval cb cb_arg (
        if not (not_null cb)
        then (negsuc 0, m)
        else (pos 0, m ++ (timer_event interval cb cb_arg ∷ [])))
unfolding timer_event is_valid
accept m interval none cb_arg v e room = (v, inr (inr (inr refl), refl, refl))
accept m interval (some cb) cb_arg v e room = (
  record {
    valid = AllValid-append m (timer_event interval (some cb) cb_arg ∷ []) v.valid (rw e refl, tt);
    bounded = omega (arith, length-append m (timer_event interval (some cb) cb_arg ∷ []), few);
  },
  inl (few, ground arith, (λ h. cc), refl, refl),
)
  where
    few : length m < max_timer_event_count
    few = ground arith

-- add_timer keeps the invariant. It puts a new timer, never called, behind the others and returns
-- 0 if there are fewer than 1000 timers, the interval is not 0 and the callback is not NULL; else
-- it returns -1 and changes nothing.
pub add_timer_result :
    (m : TimerManager) (interval : ℕ) (cb : Option ℕ) (cb_arg : ℕ)
    → IsValid m
    → AddResult m interval cb cb_arg (add_timer m interval cb cb_arg)
unfolding add_timer is_valid timer_event
add_timer_result m interval cb cb_arg v = elim (Bool-cases (leb max_timer_event_count (length m))) [
  | inl full ↦ rw full (v, inr (inl (leb→le _ _ full), refl, refl))
  | inr room ↦ rw room (elim (Bool-cases (interval == 0)) [
    | inl e ↦ rw e (v, inr (inr (inl ((==_iff interval 0).0 e)), refl, refl))
    | inr e ↦ rw e (accept m interval cb cb_arg v e room)
  ])
]

-- `operator !=` of two timers returns at no depth of the stack.
pub not_equal_events_ends_never : (depth : ℕ) (a b : TimerEvent) → not_equal_events depth a b ≡ none
unfolding not_equal_events
not_equal_events_ends_never zero a b = refl
not_equal_events_ends_never (suc depth) a b = rw (not_equal_events_ends_never depth a b) refl
