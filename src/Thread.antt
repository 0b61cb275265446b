-- ===== src/Thread.antt =====
-- thread.h and thread.cpp: one Thread object, with the threads that it has started. What pthread and the virtual functions answer
-- comes with each step. A thread's number is given again once it is free.
pub mod Hooks
mod Tests
use ig_libs.Base.{
  ℕ, ℤ, pos, negsuc, is_neg, eqb_ℤ, Bool, true, false, not, Option, none, some, List, [], ◌∷◌, ◌++◌,
  ◌≡◌, ◌==◌, if◌then◌else◌,
}

pub record Thread : Type 0 where
  pub m_tid : ℕ
  pub m_joinable : Bool

abbrev pub new_thread : Thread
new_thread = record { m_tid = 0; m_joinable = true }

-- `run`, by what `thread_pre_run` returns, whether `pthread_create` succeeds, and the number that it stores, which is any where it fails.
pub run : ℤ → Bool → ℕ → Thread → ℤ × Thread
run pre created tid t =
    let t' : Thread = record t { m_tid = tid } in
    if is_neg pre then (negsuc 0, t) else (if created then (pos 0, t') else (negsuc 1, t'))

-- By what `pthread_detach` returns.
pub detach : ℤ → Thread → ℤ × Thread
detach answer t =
    if not t.m_joinable
    then (negsuc 0, t)
    else (answer, if eqb_ℤ answer (pos 0) then record t { m_joinable = false } else t)

-- By what `pthread_join` returns and stores.
pub join : ℤ × Option ℤ → Thread → ℤ × Option ℤ
join answer t = if not t.m_joinable then (negsuc 0, none) else answer

-- What `thread_func` does next.
pub data Place : Type 0 where
  running : Place
  post_running : ℤ → Place
  exiting : ℤ → Place
  exited : ℤ → Place

-- The calls of virtual functions that a thread made, the last one first.
pub data Call : Type 0 where
  ran : ℤ → Call
  post_ran : Call

-- A step of `thread_func`. `answer` is what the virtual function returns.
unfoldable pub move : ℤ → Place → Place × List Call
move answer running = (post_running answer, ran answer ∷ [])
move answer (post_running ret) = (exiting ret, post_ran ∷ [])
move answer (exiting ret) = (exited ret, [])
move answer (exited ret) = (exited ret, [])

abbrev pub at : {A : Type 0} → ℕ → A → (ℕ → A) → ℕ → A
at tid x f other = if other == tid then x else f other

-- The object, the thread behind each number, and the calls that this thread made.
pub record System : Type 0 where
  pub object : Thread
  pub places : ℕ → Option Place
  pub history : ℕ → List Call

-- A new thread, if there is one, at its first step.
abbrev pub started : Bool → ℕ → System → System
started true tid s = record s {
  places = at tid (some running) s.places;
  history = at tid [] s.history;
}
started false tid s = s

pub data Step (s : System) : System → Type 0 where
  runs_refused :
      (pre : ℤ) (created : Bool) (tid : ℕ)
      → is_neg pre ≡ true
      → Step s (record s { object = (run pre created tid s.object).1 })
  runs :
      (pre : ℤ) (created : Bool) (tid : ℕ)
      → is_neg pre ≡ false
      → s.places tid ≡ none
      → Step s (record (started created tid s) { object = (run pre created tid s.object).1 })
  detaches : (answer : ℤ) → Step s (record s { object = (detach answer s.object).1 })
  moves :
      (tid : ℕ) (answer : ℤ) (p : Place)
      → s.places tid ≡ some p
      → Step s (record s {
        places = at tid (some (move answer p).0) s.places;
        history = at tid ((move answer p).1 ++ s.history tid) s.history;
      })
  frees :
      (tid : ℕ) (ret : ℤ)
      → s.places tid ≡ some (exited ret)
      → Step s (record s { places = at tid none s.places })

abbrev pub begin : System
begin = record { object = new_thread; places = λ tid. none; history = λ tid. [] }

pub data Reach (s : System) : System → Type 0 where
  here : Reach s s
  later : {t u : System} → Reach s t → Step t u → Reach s u
