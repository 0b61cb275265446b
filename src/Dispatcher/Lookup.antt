-- ===== src/Dispatcher/Lookup.antt =====
-- The table of handlers as a map from protocol numbers.
use ig_libs.Base.{
  ℕ, ℤ, ◌≡◌, refl, arith, Option, none, some, List, [], ◌∷◌, ◌++◌, ◌==◌, if◌then◌else◌,
}
use ig_libs.Dispatcher.{HandlerMgr, find, erase, Handlers}

-- What a handler is asked to do.
pub data Event : Type 0 where
  inits : ℕ → Event
  uninits : ℕ → Event
  processes : ℕ → ℤ → List ℕ → Event
  ticks : ℕ → ℕ → Event

-- Handlers whose answers depend on nothing else, and whose calls are recorded.
abbrev pub recorded : (Event → ℤ) → Handlers (List Event)
recorded answer = record {
  init = λ h log. (answer (inits h), log ++ (inits h ∷ []));
  uninit = λ h log. (answer (uninits h), log ++ (uninits h ∷ []));
  process = λ h fd buf log. (answer (processes h fd buf), log ++ (processes h fd buf ∷ []));
  timer_event = λ h id log. log ++ (ticks h id ∷ []);
}

pub find-append :
    (j id : ℕ) (h : Option ℕ) (m : HandlerMgr)
    → find id m ≡ none
    → find j (m ++ ((id, h) ∷ [])) ≡ (if id == j then some h else find j m)
unfolding find
find-append j id h [] e = refl
find-append j id h ((k, g) ∷ m) e = ground (arith, find-append j id h m)

-- No number stands twice.
abbrev pub IsUnique : HandlerMgr → Type 0
IsUnique [] = Unit {0}
IsUnique ((id, h) ∷ m) = (find id m ≡ none) × IsUnique m

pub find-erase :
    (j id : ℕ) (m : HandlerMgr)
    → IsUnique m
    → find j (erase id m) ≡ (if id == j then none else find j m)
unfolding find erase
find-erase j id [] u = ground arith
find-erase j id ((k, g) ∷ m) u = ground (arith, find-erase j id m u.1)

pub IsUnique-erase : (id : ℕ) (m : HandlerMgr) → IsUnique m → IsUnique (erase id m)
unfolding erase
IsUnique-erase id [] u = tt
IsUnique-erase id ((k, g) ∷ m) u = ground (arith, IsUnique-erase id m u.1, find-erase k id m u.1)

pub IsUnique-append :
    (id : ℕ) (h : Option ℕ) (m : HandlerMgr)
    → find id m ≡ none
    → IsUnique m
    → IsUnique (m ++ ((id, h) ∷ []))
unfolding find
IsUnique-append id h [] e u = (refl, tt)
IsUnique-append id h ((k, g) ∷ m) e u = ground (arith, IsUnique-append id h m, find-append k id h m)
