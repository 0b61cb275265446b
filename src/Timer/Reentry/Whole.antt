-- ===== src/Timer/Reentry/Whole.antt =====
-- What a request of a callback makes of the whole list, against the manager's methods.
use ig_libs.Base.{
  ℕ, ◌≡◌, refl, sym, ap, ◌∙◌, inl, inr, Option, none, some, [], ◌∷◌, ◌++◌, length, leb, Bool-cases,
  append_assoc,
}
use ig_libs.Timer.{
  TimerEvent, TimerManager, timer_event, is_valid, equal_events, list_remove, max_timer_event_count,
  add_timer, remove_timer, clear,
}
use ig_libs.Timer.Reentry.{Request, adds, removes, clears, Pass, as_list, whole, kept, request}

abbrev asked : TimerManager → Request → TimerManager
asked m (adds interval cb cb_arg) = (add_timer m interval cb cb_arg).1
asked m (removes interval cb cb_arg) = (remove_timer m interval cb cb_arg).1
asked m clears = clear m

list_remove-append :
    (te : TimerEvent) (m n : TimerManager)
    → list_remove te (m ++ n) ≡ list_remove te m ++ list_remove te n
unfolding list_remove
list_remove-append te [] n = refl
list_remove-append te (t ∷ m) n = elim (Bool-cases (equal_events t te)) [
  | inl same ↦ rw same (list_remove-append te m n)
  | inr other ↦ rw other (ap (λ l. t ∷ l) (list_remove-append te m n))
]

kept_lem :
    (te : TimerEvent) (current : Option TimerEvent)
    → list_remove te (as_list current) ≡ as_list (kept te current)
unfolding list_remove
kept_lem te none = refl
kept_lem te (some t) = elim (Bool-cases (equal_events t te)) [
  | inl same ↦ rw same refl
  | inr other ↦ rw other refl
]

added_behind :
    (p : Pass) (te : TimerEvent)
    → p.passed ++ (as_list p.current ++ (p.left ++ (te ∷ []))) ≡ whole p ++ (te ∷ [])
added_behind p te =
    ap (λ l. p.passed ++ l) (sym (append_assoc (as_list p.current) p.left (te ∷ [])))
    ∙ sym (append_assoc p.passed (as_list p.current ++ p.left) (te ∷ []))

whole-adds :
    (p : Pass) (interval : ℕ) (cb : Option ℕ) (cb_arg : ℕ)
    → whole (request p (adds interval cb cb_arg)) ≡ (add_timer (whole p) interval cb cb_arg).1
unfolding request add_timer
whole-adds p interval cb cb_arg = elim (Bool-cases (leb max_timer_event_count (length (whole p)))) [
  | inl full ↦ rw full refl
  | inr room ↦ elim (Bool-cases (is_valid (timer_event interval cb cb_arg))) [
    | inr bad ↦ rw (room, bad) refl
    | inl good ↦ rw (room, good) (added_behind p (timer_event interval cb cb_arg))
  ]
]

whole-removes :
    (p : Pass) (interval : ℕ) (cb : Option ℕ) (cb_arg : ℕ)
    → whole (request p (removes interval cb cb_arg)) ≡ (remove_timer (whole p) interval cb cb_arg).1
unfolding request remove_timer
whole-removes p interval cb cb_arg = elim (Bool-cases (is_valid (timer_event interval cb cb_arg))) [
  | inr bad ↦ rw bad refl
  | inl good ↦ rw good (
      sym (
        list_remove-append te p.passed (as_list p.current ++ p.left)
        ∙ ap (λ l. list_remove te p.passed ++ l)
            (list_remove-append te (as_list p.current) p.left
              ∙ ap (λ l. l ++ list_remove te p.left) (kept_lem te p.current))))
]
  where
    te : TimerEvent
    te = timer_event interval cb cb_arg

-- During a pass, what a callback asks for makes of the whole list what the method makes of it.
pub request_whole : (p : Pass) (r : Request) → whole (request p r) ≡ asked (whole p) r
unfolding request clear
request_whole p (adds interval cb cb_arg) = whole-adds p interval cb cb_arg
request_whole p (removes interval cb cb_arg) = whole-removes p interval cb cb_arg
request_whole p clears = refl
