-- ===== src/Dispatcher/Routing.antt =====
-- ProtoDispatcher::register_proto, unregister_proto and dispatch: which handler a number reaches.
use ig_libs.Base.{
  ℕ, ℤ, pos, negsuc, eqb_ℤ, ◌≡◌, ◌≢◌, ◌⊎◌, inl, inr, refl, arith, false, Option, none, some, List,
  [], ◌∷◌, ◌++◌, ◌==◌, if◌then◌else◌, ==_refl, Bool-cases, Option-cases,
}
use ig_libs.Dispatcher.{
  HandlerMgr, find, register_proto, register_found, unregister_proto, dispatch, dispatch_found,
  phr_print_protos, supported_protocols,
}
use ig_libs.Dispatcher.Lookup.{
  Event, inits, uninits, processes, recorded, IsUnique, IsUnique-append, find-append, find-erase,
}

module _ (answer : Event → ℤ) where
  -- A table in which `id` has the handler `h` and all else is as before.
  abbrev pub Extends : HandlerMgr → ℕ → ℕ → HandlerMgr → Type 0
  Extends m id h m' = (j : ℕ) → find j m' ≡ (if id == j then some (some h) else find j m)

  abbrev pub RegisterResult : HandlerMgr → ℕ → ℕ → List Event → ℤ × HandlerMgr × List Event → Type 0
  RegisterResult m id h log (code, m', log') =
      ((find id m ≡ none) × (code ≡ pos 0) × Extends m id h m' × (log' ≡ log ++ (inits h ∷ [])))
      ⊎ (((code ≡ negsuc 0) × (m' ≡ m) × (log' ≡ log ++ (inits h ∷ [])))
          ⊎ ((find id m ≢ none)
              × (code ≡ pos 1)
              × (m' ≡ m)
              × (log' ≡ (log ++ (inits h ∷ [])) ++ (uninits h ∷ []))))

  -- Registering a handler whose init returns 0: at a free number it returns 0 and the number, and no
  -- other, now reaches the handler; at a number that is taken it returns 1, uninitialises the new
  -- handler again and changes no number. With a failing init it returns -1 and changes nothing.
  pub register_proto_result :
      (m : HandlerMgr) (id h : ℕ) (log : List Event)
      → RegisterResult m id h log (register_proto (recorded answer) m id (some h) log)
        × (eqb_ℤ (answer (inits h)) (pos 0) ≡ false
            ⊎ ((register_proto (recorded answer) m id (some h) log).0 ≢ negsuc 0))
  unfolding register_proto
  register_proto_result m id h log = elim (Bool-cases (eqb_ℤ (answer (inits h)) (pos 0))) [
    | inr failed ↦ rw failed (inr (inl (refl, refl, refl)), inl refl)
    | inl ready ↦ rw ready (elim (Option-cases (find id m)) [
      | inl free ↦
          rw (free, register_found)
            (inl (refl, refl, (λ j. find-append j id (some h) m free), refl), inr (λ e. cc))
      | inr (other, taken) ↦
          rw (taken, register_found) (inr (inr ((λ e. cc), refl, refl, refl)), inr (λ e. cc))
    ])
  ]

  -- A handler that is registered already and is registered again at its number, its init returning 0, stays in the
  -- table, and the last thing that happened to it is its uninit.
  pub register_again_uninits :
      (m : HandlerMgr) (id h : ℕ) (log : List Event)
      → find id m ≡ some (some h)
      → answer (inits h) ≡ pos 0
      → let (code, m', log') = register_proto (recorded answer) m id (some h) log in
        (find id m' ≡ some (some h)) × (log' ≡ (log ++ (inits h ∷ [])) ++ (uninits h ∷ []))
  unfolding register_proto
  register_again_uninits m id h log there ready = rw (ready, there, register_found) (there, refl)

  pub DispatchResult :
      HandlerMgr → ℕ → ℤ → List ℕ → List Event → ℤ × List (ℕ × ℕ) × List Event → Type 0
  DispatchResult m id fd buf log (code, lines, log') =
      ((h : ℕ) × (find id m ≡ some (some h))
        × (code ≡ pos 0)
        × (lines ≡ (
            if eqb_ℤ (answer (processes h fd buf)) phr_print_protos
            then supported_protocols m
            else []))
        × (log' ≡ log ++ (processes h fd buf ∷ [])))
      ⊎ (((find id m ≡ none) ⊎ (find id m ≡ some none))
          × (code ≡ negsuc 0)
          × (log' ≡ log)
          × (lines ≡ []))

  -- A message goes to the handler of its number, to it alone and once, and dispatch returns 0
  -- whatever the handler answers, and prints the table if that is PHR_PRINT_PROTOS; a number without a handler gives -1 and calls nothing.
  pub dispatch_result :
      (m : HandlerMgr) (id : ℕ) (fd : ℤ) (buf : List ℕ) (log : List Event)
      → DispatchResult m id fd buf log (dispatch (recorded answer) m id fd buf log)
  unfolding dispatch DispatchResult
  dispatch_result m id fd buf log = by (find id m) refl
    where
      by :
          (found : Option (Option ℕ))
          → find id m ≡ found
          → DispatchResult m id fd buf log (dispatch_found (recorded answer) m fd buf log found)
      by none e = inr (inl e, refl, refl, refl)
      by (some none) e = inr (inr e, refl, refl, refl)
      by (some (some h)) e = inl (h, e, refl, refl, refl)

  -- In a table with each number once, unregistering a handler whose init returned 0 and which was just registered
  -- at a free number returns 0 and makes the number free again and every other
  -- number reach what it reached before.
  pub unregister-register :
      (m : HandlerMgr) (id h j : ℕ) (log : List Event)
      → IsUnique m
      → find id m ≡ none
      → answer (inits h) ≡ pos 0
      → let (_, m', log') = register_proto (recorded answer) m id (some h) log in
        let (code, m'', _) = unregister_proto (recorded answer) m' id log' in
        (code ≡ pos 0) × (find j m'' ≡ find j m)
  unfolding register_proto unregister_proto
  unregister-register m id h j log u free ready =
      rw (ready, free, register_found, find-append id id (some h) m free, ==_refl id)
        (
          refl,
          ground (
            arith,
            find-erase j id (m ++ ((id, some h) ∷ [])) (IsUnique-append id (some h) m free u),
            find-append j id (some h) m free,
          ),
        )
