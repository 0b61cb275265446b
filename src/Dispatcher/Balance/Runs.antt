-- ===== src/Dispatcher/Balance/Runs.antt =====
-- The balance of initialised and uninitialised handlers over a client's calls.
use ig_libs.Base.{
  ℕ, ◌*◌, ℤ, pos, eqb_ℤ, ◌≡◌, inl, inr, refl, ap, subst, arith, Option, none, some, List, [], ◌∷◌,
  ◌++◌, ◌==◌, ==_refl, Bool-cases, Option-cases,
}
use ig_libs.Dispatcher.{
  HandlerMgr, find, erase, register_proto, register_found, unregister_proto, unregister_found,
  clear_protos, clear_loop, dispatch, dispatch_found, timer_event_all, timer_event_of,
  timer_event_found,
}
use ig_libs.Dispatcher.Lookup.{
  Event, inits, uninits, processes, ticks, recorded, IsUnique-erase, IsUnique-append,
}
use ig_libs.Dispatcher.Balance.{
  one_if, closed, held, closed-append, held-append, held-erase, AllHandlers-erase,
  AllHandlers-append, Op, registers, unregisters, clears, dispatches, ticks_all, ticks_one, opened,
  opened-append, Inv, step, run, Neutral, Inv-Neutral,
}

module _ (answer : Event → ℤ) where
  abbrev InvOf : HandlerMgr → List Event → Type 0
  InvOf = Inv answer

  -- What `register_proto` does after a handler was initialised.
  register-Inv :
      (m : HandlerMgr) (id g : ℕ) (log : List Event)
      → InvOf m log
      → let (code, m', log') = register_proto (recorded answer) m id (some g) log in InvOf m' log'
  unfolding register_proto opened closed
  register-Inv m id g log v = elim (Bool-cases (eqb_ℤ (answer (inits g)) (pos 0))) [
    | inr failed ↦ rw failed (record {
      unique = v.unique;
      handlers = v.handlers;
      balanced = λ h. omega (
        arith,
        opened-append answer h log (inits g ∷ []),
        closed-append h log (inits g ∷ []),
        v.balanced h,
        ap (λ b. one_if (g == h) * one_if b) failed,
      );
    })
    | inl ready ↦ rw ready (elim (Option-cases (find id m)) [
      | inl free ↦
          rw (free, register_found)
            (record {
              unique = IsUnique-append id (some g) m free v.unique;
              handlers = AllHandlers-append id g m v.handlers;
              balanced = λ h. omega (
                arith,
                opened-append answer h log (inits g ∷ []),
                closed-append h log (inits g ∷ []),
                held-append h id g m,
                v.balanced h,
                ap (λ b. one_if (g == h) * one_if b) ready,
              );
            })
      | inr (other, taken) ↦
          rw (taken, register_found)
            (record {
              unique = v.unique;
              handlers = v.handlers;
              balanced = λ h. omega (
                arith,
                opened-append answer h (log ++ (inits g ∷ [])) (uninits g ∷ []),
                closed-append h (log ++ (inits g ∷ [])) (uninits g ∷ []),
                opened-append answer h log (inits g ∷ []),
                closed-append h log (inits g ∷ []),
                v.balanced h,
                ap (λ b. one_if (g == h) * one_if b) ready,
              );
            })
    ])
  ]

  unregister-Inv :
      (m : HandlerMgr) (id : ℕ) (log : List Event)
      → InvOf m log
      → let (code, m', log') = unregister_proto (recorded answer) m id log in InvOf m' log'
  unfolding unregister_proto opened closed
  unregister-Inv m id log v = by (find id m) refl
    where
      by :
          (found : Option (Option ℕ))
          → find id m ≡ found
          → let (code, m', log') = unregister_found (recorded answer) m id log found in
            InvOf m' log'
      by none e = v
      by (some none) e = v
      by (some (some g)) e = record {
        unique = IsUnique-erase id m v.unique;
        handlers = AllHandlers-erase id m v.handlers;
        balanced = λ h. omega (
          arith,
          opened-append answer h log (uninits g ∷ []),
          closed-append h log (uninits g ∷ []),
          held-erase h id g m e,
          v.balanced h,
        );
      }

  first :
      (id g : ℕ) (m : HandlerMgr) (log : List Event)
      → unregister_proto (recorded answer) ((id, some g) ∷ m) id log
        ≡ (pos 0, m, log ++ (uninits g ∷ []))
  unfolding unregister_proto find erase
  first id g m log = ground (arith, ==_refl id)

  -- The loop of `clear_protos` empties the table.
  clear_loop-Inv :
      (m : HandlerMgr) (log : List Event)
      → InvOf m log
      → let (m', log') = clear_loop (recorded answer) m m log in (m' ≡ []) × InvOf m' log'
  unfolding clear_loop
  clear_loop-Inv [] log v = (refl, v)
  clear_loop-Inv ((id, none) ∷ m) log v = absurd (v.handlers.0 refl)
  clear_loop-Inv ((id, some g) ∷ m) log v =
      let v' = unregister-Inv ((id, some g) ∷ m) id log v in
      rw (clear_loop, first id g m log)
        (clear_loop-Inv m (log ++ (uninits g ∷ [])) (rw (first id g m log) at v'))

  clear-Inv :
      (m : HandlerMgr) (log : List Event)
      → InvOf m log
      → let (m', log') = clear_protos (recorded answer) m log in InvOf m' log'
  unfolding clear_protos
  clear-Inv m log v =
      let c = clear_loop-Inv m log v in
      subst (λ l. InvOf l (clear_loop (recorded answer) m m log).1) c.0 c.1

  ticks-Neutral : (g id : ℕ) → Neutral answer (ticks g id ∷ [])
  unfolding Neutral opened closed
  ticks-Neutral g id h = (refl, refl)

  processes-Neutral : (g : ℕ) (fd : ℤ) (buf : List ℕ) → Neutral answer (processes g fd buf ∷ [])
  unfolding Neutral opened closed
  processes-Neutral g fd buf h = (refl, refl)

  dispatch-Inv :
      (m : HandlerMgr) (id : ℕ) (fd : ℤ) (buf : List ℕ) (log : List Event)
      → InvOf m log
      → let (code, lines, log') = dispatch (recorded answer) m id fd buf log in InvOf m log'
  unfolding dispatch
  dispatch-Inv m id fd buf log v = by (find id m)
    where
      by :
          (found : Option (Option ℕ))
          → let (code, lines, log') = dispatch_found (recorded answer) m fd buf log found in
            InvOf m log'
      by none = v
      by (some none) = v
      by (some (some g)) =
          Inv-Neutral answer log (processes g fd buf ∷ []) (processes-Neutral g fd buf) v

  ticks_all-Inv :
      (n m : HandlerMgr) (log : List Event)
      → InvOf m log
      → InvOf m (timer_event_all (recorded answer) n log)
  unfolding timer_event_all
  ticks_all-Inv [] m log v = v
  ticks_all-Inv ((id, none) ∷ n) m log v = ticks_all-Inv n m log v
  ticks_all-Inv ((id, some g) ∷ n) m log v =
      ticks_all-Inv n m (log ++ (ticks g id ∷ []))
        (Inv-Neutral answer log (ticks g id ∷ []) (ticks-Neutral g id) v)

  ticks_one-Inv :
      (m : HandlerMgr) (id : ℕ) (log : List Event)
      → InvOf m log
      → InvOf m (timer_event_of (recorded answer) m id log)
  unfolding timer_event_of
  ticks_one-Inv m id log v = by (find id m)
    where
      by : (found : Option (Option ℕ)) → InvOf m (timer_event_found (recorded answer) id log found)
      by none = v
      by (some none) = v
      by (some (some g)) = Inv-Neutral answer log (ticks g id ∷ []) (ticks-Neutral g id) v

  abbrev InvAt : HandlerMgr × List Event → Type 0
  InvAt (m, log) = InvOf m log

  step-Inv : (s : HandlerMgr × List Event) (op : Op) → InvAt s → InvAt (step answer s op)
  unfolding step register_proto
  step-Inv (m, log) (registers id none) v = v
  step-Inv (m, log) (registers id (some g)) v = register-Inv m id g log v
  step-Inv (m, log) (unregisters id) v = unregister-Inv m id log v
  step-Inv (m, log) clears v = clear-Inv m log v
  step-Inv (m, log) (dispatches id fd buf) v = dispatch-Inv m id fd buf log v
  step-Inv (m, log) ticks_all v = ticks_all-Inv m m log v
  step-Inv (m, log) (ticks_one id) v = ticks_one-Inv m id log v

  run-Inv : (s : HandlerMgr × List Event) (ops : List Op) → InvAt s → InvAt (run answer s ops)
  unfolding run
  run-Inv s [] v = v
  run-Inv s (op ∷ ops) v = run-Inv (step answer s op) ops (step-Inv s op v)

  start-Inv : InvAt ([], [])
  unfolding opened closed held
  start-Inv = record { unique = tt; handlers = tt; balanced = λ h. refl }

  -- Whatever calls a client makes on a new dispatcher: no number has two handlers, no NULL is in the
  -- table, and every handler was initialised with success exactly as often as it was
  -- uninitialised, plus once for each number that it stands at now.
  pub run_balanced :
      (ops : List Op) → Inv answer (run answer ([], []) ops).0 (run answer ([], []) ops).1
  run_balanced ops = run-Inv ([], []) ops start-Inv

  -- So once clear_protos has run, as the destructor does last, every successful init has had its uninit.
  pub clear_protos_balanced :
      (ops : List Op) (h : ℕ)
      → let (m, log) = run answer ([], []) ops in
        let (left, log') = clear_protos (recorded answer) m log in
        opened answer h log' ≡ closed h log'
  unfolding clear_protos held
  clear_protos_balanced ops h =
      let (m, log) = run answer ([], []) ops in
      let v = clear-Inv m log (run_balanced ops) in omega (arith, v.balanced h)
