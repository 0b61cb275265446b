-- ===== src/Singleton.antt =====
-- singleton.cpp: GetInstance with its lock, run by any number of threads at once. Every access to shared memory is a step of its
-- own. What one thread writes the others see at once.
pub mod Safety
mod Tests
use ig_libs.Base.{ℕ, suc, ◌+◌, ◌≡◌, Bool, true, false, Option, none, some, ◌==◌, if◌then◌else◌}

-- `m_instance`, the thread that holds `m_lock`, and how many objects were made; they are numbered.
pub record Globals : Type 0 where
  pub m_instance : Option ℕ
  pub m_lock : Option ℕ
  pub created : ℕ

-- What a thread does next.
pub data Place : Type 0 where
  first_test : Place
  locking : Place
  second_test : Place
  making : Place
  unlocking : Place
  reading : Place
  returned : Option ℕ → Place

abbrev pub lock_taken : ℕ → Globals → Option ℕ → Option (Globals × Place)
lock_taken me g none = some (record g { m_lock = some me }, second_test)
lock_taken me g (some holder) = none

abbrev pub if_null : Option ℕ → Place → Place → Place
if_null none yes_null no_null = yes_null
if_null (some p) yes_null no_null = no_null

abbrev pub made : Globals → Bool → Globals
made g true = record g { m_instance = some g.created; created = g.created + 1 }
made g false = record g { m_instance = none }

-- A step of GetInstance. `granted` says whether `new (std::nothrow)` gives memory; `none` is a thread that waits.
unfoldable pub move : ℕ → Bool → Globals → Place → Option (Globals × Place)
move me granted g first_test = some (g, if_null g.m_instance locking reading)
move me granted g locking = lock_taken me g g.m_lock
move me granted g second_test = some (g, if_null g.m_instance making unlocking)
move me granted g making = some (made g granted, unlocking)
move me granted g unlocking = some (record g { m_lock = none }, reading)
move me granted g reading = some (g, returned g.m_instance)
move me granted g (returned p) = some (g, returned p)

pub record System : Type 0 where
  pub globals : Globals
  pub threads : ℕ → Place

abbrev pub placed : ℕ → Place → (ℕ → Place) → ℕ → Place
placed me p threads other = if other == me then p else threads other

-- A thread moves, in any order; one that has returned may call again.
pub data Step (s : System) : System → Type 0 where
  moves :
      (me : ℕ) (granted : Bool) {g : Globals} {p : Place}
      → move me granted s.globals (s.threads me) ≡ some (g, p)
      → Step s (record { globals = g; threads = placed me p s.threads })
  calls :
      (me : ℕ) {p : Option ℕ}
      → s.threads me ≡ returned p
      → Step s (record { globals = s.globals; threads = placed me first_test s.threads })

abbrev pub begin : System
begin = record {
  globals = record { m_instance = none; m_lock = none; created = 0 };
  threads = λ me. first_test;
}

pub data Reach : System → Type 0 where
  start : Reach begin
  later : {s t : System} → Reach s → Step s t → Reach t
