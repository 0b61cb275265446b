-- ===== src/Dispatcher/Client.antt =====
-- A dispatcher against a map from protocol numbers to handlers, in which the order of the table is forgotten.
use ig_libs.Base.{
  inl, inr, ℕ, ℤ, pos, negsuc, eqb_ℤ, ◌≡◌, refl, sym, ap, ap₂, ◌∙◌, Option, none, some, List, [],
  ◌∷◌, ◌++◌, ◌==◌, if◌then◌else◌, Bool-cases,
}
use ig_libs.Dispatcher.{
  HandlerMgr, find, erase, register_proto, register_found, unregister_proto, unregister_found,
  dispatch, dispatch_found, timer_event_of, timer_event_found,
}
use ig_libs.Dispatcher.Lookup.{
  Event, inits, uninits, processes, ticks, recorded, IsUnique, IsUnique-append, IsUnique-erase,
  find-append, find-erase,
}

-- What a program asks of a dispatcher.
pub data Op : Type 0 where
  registers : ℕ → Option ℕ → Op
  unregisters : ℕ → Op
  dispatches : ℕ → ℤ → List ℕ → Op
  ticks_of : ℕ → Op

-- The handler of each number, if it has one.
abbrev pub Handled : Type 0
Handled = ℕ → Option ℕ

abbrev pub put : ℕ → Option ℕ → Handled → Handled
put id h handled j = if id == j then h else handled j

-- What a call returns, and what it asks of handlers; timer_event returns nothing, here 0.
abbrev pub Reply : Type 0
Reply = ℤ × List Event

module _ (answer : Event → ℤ) where
  abbrev registered : ℕ → ℕ → Handled → Option ℕ → Reply × Handled
  registered id h handled none = ((pos 0, inits h ∷ []), put id (some h) handled)
  registered id h handled (some other) = ((pos 1, inits h ∷ uninits h ∷ []), handled)

  abbrev unregistered : ℕ → Handled → Option ℕ → Reply × Handled
  unregistered id handled none = ((negsuc 0, []), handled)
  unregistered id handled (some h) = ((pos 0, uninits h ∷ []), put id none handled)

  abbrev dispatched : ℤ → List ℕ → Option ℕ → Reply
  dispatched fd buf none = (negsuc 0, [])
  dispatched fd buf (some h) = (pos 0, processes h fd buf ∷ [])

  abbrev ticked : ℕ → Option ℕ → Reply
  ticked id none = (pos 0, [])
  ticked id (some h) = (pos 0, ticks h id ∷ [])

  abbrev pub map_step : Handled → Op → Reply × Handled
  map_step handled (registers id none) = ((negsuc 0, []), handled)
  map_step handled (registers id (some h)) =
      if eqb_ℤ (answer (inits h)) (pos 0)
      then registered id h handled (handled id)
      else ((negsuc 0, inits h ∷ []), handled)
  map_step handled (unregisters id) = unregistered id handled (handled id)
  map_step handled (dispatches id fd buf) = (dispatched fd buf (handled id), handled)
  map_step handled (ticks_of id) = (ticked id (handled id), handled)

  unfoldable pub map_run : Handled → List Op → List Reply
  map_run handled [] = []
  map_run handled (op ∷ ops) =
      let (reply, handled') = map_step handled op in reply ∷ map_run handled' ops

  -- The dispatcher's own methods, each on an empty record of calls.
  abbrev pub own_step : HandlerMgr → Op → Reply × HandlerMgr
  own_step m (registers id h) =
      let (code, m', log) = register_proto (recorded answer) m id h [] in ((code, log), m')
  own_step m (unregisters id) =
      let (code, m', log) = unregister_proto (recorded answer) m id [] in ((code, log), m')
  own_step m (dispatches id fd buf) =
      let (code, lines, log) = dispatch (recorded answer) m id fd buf [] in ((code, log), m)
  own_step m (ticks_of id) = ((pos 0, timer_event_of (recorded answer) m id []), m)

  pub own_run : HandlerMgr → List Op → List Reply
  own_run m [] = []
  own_run m (op ∷ ops) = let (reply, m') = own_step m op in reply ∷ own_run m' ops

  abbrev pub as_found : Option ℕ → Option (Option ℕ)
  as_found none = none
  as_found (some h) = some (some h)

  -- The table, each number once and no NULL in it, stands for the map.
  pub record Stands (m : HandlerMgr) (handled : Handled) : Type 0 where
    pub unique : IsUnique m
    pub finds : (id : ℕ) → find id m ≡ as_found (handled id)

  record Agrees (own : Reply × HandlerMgr) (abstract_map : Reply × Handled) : Type 0 where
    reply : own.0 ≡ abstract_map.0
    stands : Stands own.1 abstract_map.1

  put-found :
      (id j : ℕ) (h : Option ℕ) (handled : Handled) (rest : Option (Option ℕ))
      → rest ≡ as_found (handled j)
      → (if id == j then as_found h else rest) ≡ as_found (put id h handled j)
  put-found id j h handled rest e = elim (Bool-cases (id == j)) [
    | inl same ↦ rw same refl
    | inr apart ↦ rw apart e
  ]

  Stands-append :
      (m : HandlerMgr) (handled : Handled) (id h : ℕ)
      → handled id ≡ none
      → Stands m handled
      → Stands (m ++ ((id, some h) ∷ [])) (put id (some h) handled)
  Stands-append m handled id h free s =
      let missing : find id m ≡ none = s.finds id ∙ ap as_found free in
      record {
        unique = IsUnique-append id (some h) m missing s.unique;
        finds = λ j.
            find-append j id (some h) m missing
            ∙ put-found id j (some h) handled (find j m) (s.finds j);
      }

  Stands-erase :
      (m : HandlerMgr) (handled : Handled) (id : ℕ)
      → Stands m handled
      → Stands (erase id m) (put id none handled)
  Stands-erase m handled id s = record {
    unique = IsUnique-erase id m s.unique;
    finds = λ j. find-erase j id m s.unique ∙ put-found id j none handled (find j m) (s.finds j);
  }

  register_found-Agrees :
      (m : HandlerMgr) (handled : Handled) (id h : ℕ) (there : Option ℕ)
      → handled id ≡ there
      → Stands m handled
      → Agrees
          (let (code, m', log) =
              register_found (recorded answer) m id h (inits h ∷ []) (as_found there) in
            ((code, log), m'))
          (registered id h handled there)
  unfolding register_found
  register_found-Agrees m handled id h none e s = record {
    reply = refl;
    stands = Stands-append m handled id h e s;
  }
  register_found-Agrees m handled id h (some other) e s = record { reply = refl; stands = s }

  unregister_found-Agrees :
      (m : HandlerMgr) (handled : Handled) (id : ℕ) (there : Option ℕ)
      → Stands m handled
      → Agrees
          (let (code, m', log) = unregister_found (recorded answer) m id [] (as_found there) in
            ((code, log), m'))
          (unregistered id handled there)
  unfolding unregister_found
  unregister_found-Agrees m handled id none s = record { reply = refl; stands = s }
  unregister_found-Agrees m handled id (some h) s = record {
    reply = refl;
    stands = Stands-erase m handled id s;
  }

  dispatch_found-reply :
      (m : HandlerMgr) (fd : ℤ) (buf : List ℕ) (there : Option ℕ)
      → (let (code, lines, log) = dispatch_found (recorded answer) m fd buf [] (as_found there) in
          (code, log))
        ≡ dispatched fd buf there
  unfolding dispatch_found
  dispatch_found-reply m fd buf none = refl
  dispatch_found-reply m fd buf (some h) = refl

  timer_event_found-reply :
      (id : ℕ) (there : Option ℕ)
      → ◌≡◌ {A = Reply}
          (pos 0, timer_event_found (recorded answer) id [] (as_found there))
          (ticked id there)
  unfolding timer_event_found
  timer_event_found-reply id none = refl
  timer_event_found-reply id (some h) = refl

  step-Agrees :
      (op : Op) (m : HandlerMgr) (handled : Handled)
      → Stands m handled
      → Agrees (own_step m op) (map_step handled op)
  unfolding register_proto unregister_proto dispatch timer_event_of
  step-Agrees (registers id none) m handled s = record { reply = refl; stands = s }
  step-Agrees (registers id (some h)) m handled s =
      elim (Bool-cases (eqb_ℤ (answer (inits h)) (pos 0))) [
        | inr failed ↦ rw failed (record { reply = refl; stands = s })
        | inl ready ↦
            rw (ready, s.finds id) (register_found-Agrees m handled id h (handled id) refl s)
      ]
  step-Agrees (unregisters id) m handled s =
      rw (s.finds id) (unregister_found-Agrees m handled id (handled id) s)
  step-Agrees (dispatches id fd buf) m handled s =
      rw (s.finds id) (record { reply = dispatch_found-reply m fd buf (handled id); stands = s })
  step-Agrees (ticks_of id) m handled s =
      rw (s.finds id) (record { reply = timer_event_found-reply id (handled id); stands = s })

  -- Let a table have each number once and no NULL. Then no calls of register_proto, unregister_proto, dispatch and timer_event tell the dispatcher from
  -- the map that the table stands for: every return value, and every call of a handler with its arguments, is as the
  -- map says, in which a number is registered only where it is free, and keeps its handler until it is unregistered; a handler that is NULL or whose init does not give 0 is refused with -1.
  pub dispatcher_refines :
      (ops : List Op) (m : HandlerMgr) (handled : Handled)
      → Stands m handled
      → own_run m ops ≡ map_run handled ops
  unfolding own_run map_run
  dispatcher_refines [] m handled s = refl
  dispatcher_refines (op ∷ ops) m handled s =
      let a = step-Agrees op m handled s in
      let (reply, m') = own_step m op in
      let (same, handled') = map_step handled op in
      ap₂ (λ x xs. x ∷ xs) a.reply (dispatcher_refines ops m' handled' a.stands)

  -- Two tables that stand for the same map, in any order, cannot be told apart.
  pub order_forgotten :
      (ops : List Op) (m n : HandlerMgr) (handled : Handled)
      → Stands m handled
      → Stands n handled
      → own_run m ops ≡ own_run n ops
  order_forgotten ops m n handled s t =
      dispatcher_refines ops m handled s ∙ sym (dispatcher_refines ops n handled t)
