-- ===== src/Dispatcher/Balance.antt =====
-- Every handler that a dispatcher initialises is uninitialised once, at the latest by clear_protos.
pub mod Runs
use ig_libs.Base.{
  ℕ, ◌+◌, ◌*◌, ℤ, pos, negsuc, eqb_ℤ, ◌≡◌, ◌≢◌, ◌⊎◌, inl, inr, refl, sym, ap, ◌∙◌, subst, arith,
  Bool, true, false, Option, none, some, List, [], ◌∷◌, ◌++◌, append_assoc, append-nil, ◌==◌,
  if◌then◌else◌, ==_iff, ==_refl, Bool-cases, Option-cases,
}
use ig_libs.Dispatcher.{
  HandlerMgr, Handlers, find, erase, register_proto, register_found, unregister_proto,
  unregister_found, clear_protos, clear_loop, dispatch, dispatch_found, timer_event_all,
  timer_event_of, timer_event_found,
}
use ig_libs.Dispatcher.Lookup.{
  Event, inits, uninits, processes, ticks, recorded, IsUnique, IsUnique-erase, IsUnique-append,
}

abbrev one_if : Bool → ℕ
one_if b = if b then 1 else 0

-- How often `h` was uninitialised.
pub closed : ℕ → List Event → ℕ
closed h [] = 0
closed h (inits g ∷ log) = closed h log
closed h (uninits g ∷ log) = one_if (g == h) + closed h log
closed h (processes g fd buf ∷ log) = closed h log
closed h (ticks g id ∷ log) = closed h log

-- At how many protocol numbers `h` stands.
pub held : ℕ → HandlerMgr → ℕ
held h [] = 0
held h ((id, none) ∷ m) = held h m
held h ((id, some g) ∷ m) = one_if (g == h) + held h m

closed-append :
    (h : ℕ) (log more : List Event) → closed h (log ++ more) ≡ closed h log + closed h more
unfolding closed
closed-append h [] more = omega arith
closed-append h (inits g ∷ log) more = closed-append h log more
closed-append h (uninits g ∷ log) more = omega (arith, closed-append h log more)
closed-append h (processes g fd buf ∷ log) more = closed-append h log more
closed-append h (ticks g id ∷ log) more = closed-append h log more

held-append :
    (h id g : ℕ) (m : HandlerMgr) → held h (m ++ ((id, some g) ∷ [])) ≡ held h m + one_if (g == h)
unfolding held
held-append h id g [] = omega arith
held-append h id g ((j, none) ∷ m) = held-append h id g m
held-append h id g ((j, some k) ∷ m) = omega (arith, held-append h id g m)

held-erase :
    (h id g : ℕ) (m : HandlerMgr)
    → find id m ≡ some (some g)
    → held h m ≡ one_if (g == h) + held h (erase id m)
unfolding held find erase
held-erase h id g [] e = cc
held-erase h id g ((j, none) ∷ m) e = ground (arith, held-erase h id g m)
held-erase h id g ((j, some k) ∷ m) e = ground (arith, held-erase h id g m)

-- The table holds no NULL.
abbrev pub AllHandlers : HandlerMgr → Type 0
AllHandlers [] = Unit {0}
AllHandlers ((id, h) ∷ m) = (h ≢ none) × AllHandlers m

AllHandlers-erase : (id : ℕ) (m : HandlerMgr) → AllHandlers m → AllHandlers (erase id m)
unfolding erase
AllHandlers-erase id [] a = tt
AllHandlers-erase id ((j, h) ∷ m) a = ground (arith, AllHandlers-erase id m a.1)

AllHandlers-append :
    (id g : ℕ) (m : HandlerMgr) → AllHandlers m → AllHandlers (m ++ ((id, some g) ∷ []))
AllHandlers-append id g [] a = (λ e. cc, tt)
AllHandlers-append id g ((j, h) ∷ m) a = (a.0, AllHandlers-append id g m a.1)

-- A client's calls.
pub data Op : Type 0 where
  registers : ℕ → Option ℕ → Op
  unregisters : ℕ → Op
  clears : Op
  dispatches : ℕ → ℤ → List ℕ → Op
  ticks_all : Op
  ticks_one : ℕ → Op

module _ (answer : Event → ℤ) where
  -- How often `h` was initialised with success.
  pub opened : ℕ → List Event → ℕ
  opened h [] = 0
  opened h (inits g ∷ log) =
      one_if (g == h) * one_if (eqb_ℤ (answer (inits g)) (pos 0)) + opened h log
  opened h (uninits g ∷ log) = opened h log
  opened h (processes g fd buf ∷ log) = opened h log
  opened h (ticks g id ∷ log) = opened h log

  opened-append :
      (h : ℕ) (log more : List Event) → opened h (log ++ more) ≡ opened h log + opened h more
  unfolding opened
  opened-append h [] more = omega arith
  opened-append h (inits g ∷ log) more = omega (arith, opened-append h log more)
  opened-append h (uninits g ∷ log) more = opened-append h log more
  opened-append h (processes g fd buf ∷ log) more = opened-append h log more
  opened-append h (ticks g id ∷ log) more = opened-append h log more

  pub record Inv (m : HandlerMgr) (log : List Event) : Type 0 where
    pub unique : IsUnique m
    pub handlers : AllHandlers m
    pub balanced : (h : ℕ) → opened h log ≡ closed h log + held h m

  -- One call, its result dropped.
  pub step : HandlerMgr × List Event → Op → HandlerMgr × List Event
  step (m, log) (registers id h) =
      let (code, m', log') = register_proto (recorded answer) m id h log in (m', log')
  step (m, log) (unregisters id) =
      let (code, m', log') = unregister_proto (recorded answer) m id log in (m', log')
  step (m, log) clears = clear_protos (recorded answer) m log
  step (m, log) (dispatches id fd buf) =
      let (code, lines, log') = dispatch (recorded answer) m id fd buf log in (m, log')
  step (m, log) ticks_all = (m, timer_event_all (recorded answer) m log)
  step (m, log) (ticks_one id) = (m, timer_event_of (recorded answer) m id log)

  pub run : HandlerMgr × List Event → List Op → HandlerMgr × List Event
  run s [] = s
  run s (op ∷ ops) = run (step s op) ops

  -- Events that initialise nothing and uninitialise nothing.
  Neutral : List Event → Type 0
  Neutral log = (h : ℕ) → (opened h log ≡ 0) × (closed h log ≡ 0)

  Inv-Neutral :
      {m : HandlerMgr} (log more : List Event) → Neutral more → Inv m log → Inv m (log ++ more)
  unfolding Neutral
  Inv-Neutral log more n v = record {
    unique = v.unique;
    handlers = v.handlers;
    balanced =
        λ h. omega (arith, opened-append h log more, closed-append h log more, n h, v.balanced h);
  }
