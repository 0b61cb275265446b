-- ===== src/Thread/Hooks.antt =====
-- The order of a thread's calls, and what join and detach give.
use ig_libs.Base.{
  ℕ, ℤ, pos, negsuc, is_neg, ◌≡◌, refl, inl, inr, ◌∙◌, subst, Bool, true, false, not, Bool-cases,
  Option, none, some, List, [], ◌∷◌, ◌++◌, ◌==◌, if◌then◌else◌,
}
use ig_libs.Thread.{
  Thread, run, detach, join, Place, running, post_running, exiting, exited, Call, ran, post_ran,
  move, at, System, Step, runs_refused, runs, detaches, moves, frees, begin, Reach, here, later,
}

-- The calls that a thread has made where it stands.
abbrev Fits : Option Place → List Call → Type 0
Fits none h = Unit {0}
Fits (some running) h = h ≡ []
Fits (some (post_running ret)) h = h ≡ ran ret ∷ []
Fits (some (exiting ret)) h = h ≡ post_ran ∷ ran ret ∷ []
Fits (some (exited ret)) h = h ≡ post_ran ∷ ran ret ∷ []

AllFit : System → Type 0
AllFit s = (tid : ℕ) → Fits (s.places tid) (s.history tid)

move-Fits :
    (answer : ℤ) (p : Place) (h : List Call)
    → Fits (some p) h
    → Fits (some (move answer p).0) ((move answer p).1 ++ h)
unfolding move
move-Fits answer running h f = rw f refl
move-Fits answer (post_running ret) h f = rw f refl
move-Fits answer (exiting ret) h f = f
move-Fits answer (exited ret) h f = f

at-Fits :
    (tid other : ℕ) (place : Option Place) (calls : List Call) (s : System)
    → Fits place calls
    → Fits (s.places other) (s.history other)
    → Fits (at tid place s.places other) (at tid calls s.history other)
at-Fits tid other place calls s mine theirs = elim (Bool-cases (other == tid)) [
  | inl same ↦ rw same mine
  | inr apart ↦ rw apart theirs
]

Step-AllFit : {s t : System} → Step s t → AllFit s → AllFit t
unfolding AllFit
Step-AllFit (runs_refused pre created tid refused) f other = f other
Step-AllFit {s} (runs pre true tid fine free) f other =
    at-Fits tid other (some running) [] s refl (f other)
Step-AllFit (runs pre false tid fine free) f other = f other
Step-AllFit (detaches answer) f other = f other
Step-AllFit {s} (moves tid answer p e) f other =
    at-Fits tid other (some (move answer p).0) ((move answer p).1 ++ s.history tid) s
      (move-Fits answer p (s.history tid) (subst (λ x. Fits x (s.history tid)) e (f tid))) (f other)
Step-AllFit {s} (frees tid ret e) f other = elim (Bool-cases (other == tid)) [
  | inl same ↦ rw same tt
  | inr apart ↦ rw apart (f other)
]

Reach-AllFit : {s : System} → Reach begin s → AllFit s
unfolding AllFit
Reach-AllFit here other = tt
Reach-AllFit (later r step) other = Step-AllFit step (Reach-AllFit r) other

join-answer :
    (answer : ℤ × Option ℤ) (t : Thread) (ret : ℤ)
    → join answer t ≡ (pos 0, some ret)
    → answer ≡ (pos 0, some ret)
unfolding join
join-answer answer t ret e = by t.m_joinable e
  where
    by :
        (b : Bool)
        → (if not b then (negsuc 0, none) else answer) ≡ (pos 0, some ret)
        → answer ≡ (pos 0, some ret)
    by true e = e
    by false e = cc

-- At any time in the life of a Thread, with pthread_join succeeding only for a thread that has ended, and with this thread's value: if
-- join succeeds with a value, then the thread it names has called thread_run once, which returned this
-- value, then thread_post_run once, and nothing else.
pub join_after_hooks :
    (s : System) (answer : ℕ → ℤ × Option ℤ) (ret : ℤ)
    → Reach begin s
    → ((tid : ℕ) (v : ℤ) → answer tid ≡ (pos 0, some v) → s.places tid ≡ some (exited v))
    → join (answer s.object.m_tid) s.object ≡ (pos 0, some ret)
    → s.history s.object.m_tid ≡ post_ran ∷ ran ret ∷ []
unfolding AllFit
join_after_hooks s answer ret r law e =
    let tid = s.object.m_tid in
    let ended : s.places tid ≡ some (exited ret) =
      law tid ret (join-answer (answer tid) s.object ret e) in
    subst (λ p. Fits p (s.history tid)) ended (Reach-AllFit r tid)

run_joinable :
    (pre : ℤ) (created : Bool) (tid : ℕ) (t : Thread)
    → (run pre created tid t).1.m_joinable ≡ t.m_joinable
unfolding run
run_joinable pre created tid t = elim (Bool-cases (is_neg pre)) [
  | inl refused ↦ rw refused refl
  | inr fine ↦ elim (Bool-cases created) [
    | inl made ↦ rw (fine, made) refl
    | inr none_made ↦ rw (fine, none_made) refl
  ]
]

Step-detached :
    {s t : System} → Step s t → s.object.m_joinable ≡ false → t.object.m_joinable ≡ false
unfolding detach
Step-detached {s} (runs_refused pre created tid refused) d =
    run_joinable pre created tid s.object ∙ d
Step-detached {s} (runs pre created tid fine free) d = run_joinable pre created tid s.object ∙ d
Step-detached {s} (detaches answer) d = rw d refl
Step-detached (moves tid answer p e) d = d
Step-detached (frees tid ret e) d = d

Reach-detached :
    {s t : System} → Reach s t → s.object.m_joinable ≡ false → t.object.m_joinable ≡ false
Reach-detached here d = d
Reach-detached (later r step) d = Step-detached step (Reach-detached r d)

-- Once a Thread is detached it stays so, whatever it runs later: detach and join then return -1, change
-- nothing and do not ask pthread.
pub detached_for_ever :
    (s t : System) (answer : ℤ) (joined : ℤ × Option ℤ)
    → s.object.m_joinable ≡ false
    → Reach s t
    → (detach answer t.object ≡ (negsuc 0, t.object)) × (join joined t.object ≡ (negsuc 0, none))
unfolding detach join
detached_for_ever s t answer joined d r =
    let still : t.object.m_joinable ≡ false = Reach-detached r d in (rw still refl, rw still refl)
