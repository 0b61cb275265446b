-- ===== src/Dispatcher/Tests.antt =====
-- A dispatcher with two handlers, all of whose calls succeed.
use ig_libs.Base.{
  ℕ, negsuc, none, ◌==◌, ◌≡◌, refl, if◌then◌else◌, inl, inr, Bool-cases, ℤ, pos, some, List, [],
  ◌∷◌,
}
use ig_libs.Dispatcher.{HandlerMgr, find}
use ig_libs.Dispatcher.Lookup.{Event, inits, uninits, processes}
use ig_libs.Dispatcher.Balance.{Op, registers, unregisters, dispatches, Inv, run}
use ig_libs.Dispatcher.Balance.Runs.{run_balanced}
use ig_libs.Dispatcher.Client
use ig_libs.Dispatcher.Client.{Handled, as_found, Stands, own_run, map_run, dispatcher_refines}

abbrev fine : Event → ℤ
fine e = pos 0

abbrev table : HandlerMgr
table = (5, some 70) ∷ (6, some 71) ∷ []

abbrev calls : List Op
calls =
    registers 5 (some 70)
    ∷ registers 5 (some 71)
    ∷ dispatches 5 (pos 3) []
    ∷ unregisters 5
    ∷ registers 6 (some 70)
    ∷ []

run_balanced_example : Inv fine (run fine ([], []) calls).0 (run fine ([], []) calls).1
run_balanced_example = run_balanced fine calls

-- What the table stands for.
abbrev handled : Handled
handled id = if 5 == id then some 70 else (if 6 == id then some 71 else none)

table-Stands : Stands fine table handled
unfolding find
table-Stands = record { unique = (refl, (refl, tt)); finds = by }
  where
    by : (id : ℕ) → find id table ≡ as_found fine (handled id)
    by id = elim (Bool-cases (5 == id)) [
      | inl five ↦ rw five refl
      | inr other ↦ rw other (elim (Bool-cases (6 == id)) [
        | inl six ↦ rw six refl
        | inr none_there ↦ rw none_there refl
      ])
    ]

abbrev asked : List Client.Op
asked =
    Client.registers 5 (some 72)
    ∷ Client.unregisters 5
    ∷ Client.dispatches 6 (pos 4) (1 ∷ [])
    ∷ Client.dispatches 5 (pos 4) []
    ∷ []

dispatcher_refines_example : own_run fine table asked ≡ map_run fine handled asked
dispatcher_refines_example = dispatcher_refines fine asked table handled table-Stands

asked_run :
    map_run fine handled asked
    ≡ (pos 1, inits 72 ∷ uninits 72 ∷ [])
      ∷ (pos 0, uninits 70 ∷ [])
      ∷ (pos 0, processes 71 (pos 4) (1 ∷ []) ∷ [])
      ∷ (negsuc 0, [])
      ∷ []
unfolding map_run
asked_run = refl
