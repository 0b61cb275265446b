-- ===== src/Timer/Reentry/Adds.antt =====
-- What callbacks that call add_timer only make of the list during a pass.
use ig_libs.Base.{
  ℕ, ◌≤◌, ◌<◌, ◌≡◌, refl, sym, ap, subst, ◌∙◌, arith, inl, inr, true, false, Bool-cases, Option,
  List, [], ◌∷◌, ◌++◌, length, length-append, append-nil, append_assoc, leb,
}
use ig_libs.Timer.{TimerEvent, timer_event, is_valid, max_timer_event_count}
use ig_libs.Timer.Passes.{AllValid}
use ig_libs.Timer.Removal.{AllValid-append}
use ig_libs.Timer.Reentry.{Request, adds, removes, clears, Pass, whole, as_list, request, requested}

-- A callback calls add_timer only.
abbrev pub OnlyAdds : List Request → Type 0
OnlyAdds [] = Unit {0}
OnlyAdds (adds interval cb cb_arg ∷ rs) = OnlyAdds rs
OnlyAdds (removes interval cb cb_arg ∷ rs) = ⊥
OnlyAdds (clears ∷ rs) = ⊥

-- Valid timers are put behind the others, and the list stays within its bound.
abbrev pub Grown : Pass → Pass → Type 0
Grown p p' =
    (extra : List TimerEvent) × (p' ≡ record p { left = p.left ++ extra })
    × AllValid extra
    × (length (whole p') ≤ max_timer_event_count)

request-Grown :
    (p : Pass) (interval : ℕ) (cb : Option ℕ) (cb_arg : ℕ)
    → length (whole p) ≤ max_timer_event_count
    → Grown p (request p (adds interval cb cb_arg))
unfolding request
request-Grown p interval cb cb_arg b =
    elim (Bool-cases (leb max_timer_event_count (length (whole p)))) [
      | inl full ↦ subst (Grown p) (sym (refused full)) same
      | inr room ↦ elim (Bool-cases (is_valid te)) [
        | inr bad ↦ subst (Grown p) (sym (invalid room bad)) same
        | inl good ↦ subst (Grown p) (sym (added room good)) (te ∷ [], refl, (good, tt), long room)
      ]
    ]
  where
    te : TimerEvent
    te = timer_event interval cb cb_arg

    few :
        leb max_timer_event_count (length (whole p)) ≡ false
        → length (whole p) < max_timer_event_count
    few room = ground arith

    long :
        leb max_timer_event_count (length (whole p)) ≡ false
        → length (p.passed ++ (as_list p.current ++ (p.left ++ (te ∷ [])))) ≤ max_timer_event_count
    long room = omega (
      arith,
      few room,
      length-append p.passed (as_list p.current ++ p.left),
      length-append (as_list p.current) p.left,
      length-append p.passed (as_list p.current ++ (p.left ++ (te ∷ []))),
      length-append (as_list p.current) (p.left ++ (te ∷ [])),
      length-append p.left (te ∷ []),
    )

    same : Grown p p
    same = ([], ap (λ l. record p { left = l }) (sym (append-nil p.left)), tt, b)

    refused :
        leb max_timer_event_count (length (whole p)) ≡ true
        → request p (adds interval cb cb_arg) ≡ p
    refused full = rw full refl

    invalid :
        leb max_timer_event_count (length (whole p)) ≡ false
        → is_valid te ≡ false
        → request p (adds interval cb cb_arg) ≡ p
    invalid room bad = rw (room, bad) refl

    added :
        leb max_timer_event_count (length (whole p)) ≡ false
        → is_valid te ≡ true
        → request p (adds interval cb cb_arg) ≡ record p { left = p.left ++ (te ∷ []) }
    added room good = rw (room, good) refl

Grown-trans : (p q r : Pass) → Grown p q → Grown q r → Grown p r
Grown-trans p q r (xs, e, v, b) (ys, e', v', b') = (
  xs ++ ys,
  e'
      ∙ ap {A = Pass} {B = Pass} (λ q. record q { left = q.left ++ ys }) e
      ∙ ap {B = Pass} (λ l. record p { left = l }) (append_assoc p.left xs ys),
  AllValid-append xs ys v v',
  b',
)

pub requested-Grown :
    (rs : List Request) (p : Pass)
    → OnlyAdds rs
    → length (whole p) ≤ max_timer_event_count
    → Grown p (requested p rs)
unfolding requested
requested-Grown [] p h b = ([], ap (λ l. record p { left = l }) (sym (append-nil p.left)), tt, b)
requested-Grown (adds interval cb cb_arg ∷ rs) p h b =
    let first = request-Grown p interval cb cb_arg b in
    Grown-trans p (request p (adds interval cb cb_arg))
      (requested (request p (adds interval cb cb_arg)) rs) first
      (requested-Grown rs (request p (adds interval cb cb_arg)) h first.3)
requested-Grown (removes interval cb cb_arg ∷ rs) p h b = absurd h
requested-Grown (clears ∷ rs) p h b = absurd h
