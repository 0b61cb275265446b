-- ===== src/Thread/Tests.antt =====
-- A thread that is run, joined and detached.
use ig_libs.Base.{
  ℕ, ℤ, pos, ◌≡◌, refl, Bool, true, false, Option, none, some, [], ◌∷◌, ◌==◌, if◌then◌else◌,
}
use ig_libs.Thread.{
  run, join, running, post_running, exiting, exited, ran, post_ran, move, at, System, runs, moves,
  Reach, here, later, begin,
}
use ig_libs.Thread.Hooks.{join_after_hooks}

-- Thread 5 has ended, with the value 7.
abbrev ended : System
ended = record {
  object = record { m_tid = 5; m_joinable = true };
  places = at 5 (some (exited (pos 7))) (
      at 5 (some (exiting (pos 7)))
        (at 5 (some (post_running (pos 7))) (at 5 (some running) (λ tid. none))));
  history =
      at 5 (post_ran ∷ ran (pos 7) ∷ [])
        (at 5 (post_ran ∷ ran (pos 7) ∷ []) (at 5 (ran (pos 7) ∷ []) (at 5 [] (λ tid. []))));
}

ended-Reach : Reach begin ended
unfolding run move
ended-Reach =
    later
      (later (later (later here (runs (pos 0) true 5 refl refl)) (moves 5 (pos 7) running refl))
        (moves 5 (pos 0) (post_running (pos 7)) refl))
      (moves 5 (pos 0) (exiting (pos 7)) refl)

-- What pthread_join gives then.
abbrev joins : ℕ → ℤ × Option ℤ
joins tid = if tid == 5 then (pos 0, some (pos 7)) else (pos 3, none)

joins_ended : (tid : ℕ) (v : ℤ) → joins tid ≡ (pos 0, some v) → ended.places tid ≡ some (exited v)
joins_ended tid v e = by (tid == 5) e
  where
    by :
        (b : Bool)
        → ◌≡◌ {A = ℤ × Option ℤ}
            (if b then (pos 0, some (pos 7)) else (pos 3, none))
            (pos 0, some v)
        → (if b
            then some (exited (pos 7))
            else (if b
                then some (exiting (pos 7))
                else (if b
                    then some (post_running (pos 7))
                    else (if b then some running else none))))
          ≡ some (exited v)
    by true e = cc
    by false e = cc

join_after_hooks_example : ended.history 5 ≡ post_ran ∷ ran (pos 7) ∷ []
unfolding join
join_after_hooks_example = join_after_hooks ended joins (pos 7) ended-Reach joins_ended refl
