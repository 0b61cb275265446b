-- ===== src/Dispatcher.antt =====
-- proto_dispatcher.h, proto_dispatcher.cpp and the interface of proto_handler.h: protocol numbers and their handlers.
-- The virtual functions of the handlers are a parameter; each takes the state that the handlers share.
pub mod Lookup
pub mod Balance
pub mod Routing
pub mod Client
mod Tests
use ig_libs.Base.{
  ℕ, ℤ, pos, negsuc, eqb_ℤ, Bool, true, false, Option, none, some, List, [], ◌∷◌, ◌++◌, map, ◌==◌,
  if◌then◌else◌,
}

-- `init`, `uninit`, `process` and `timer_event` of the handler at a pointer that is not NULL.
pub record Handlers (W : Type 0) : Type 0 where
  pub init : ℕ → W → ℤ × W
  pub uninit : ℕ → W → ℤ × W
  pub process : ℕ → ℤ → List ℕ → W → ℤ × W
  pub timer_event : ℕ → ℕ → W → W

-- `m_handler_mgr`: each number once. A pointer is `none` if it is NULL.
abbrev pub HandlerMgr : Type 0
HandlerMgr = List (ℕ × Option ℕ)

unfoldable pub find : ℕ → HandlerMgr → Option (Option ℕ)
find id [] = none
find id ((j, h) ∷ m) = if j == id then some h else find id m

pub erase : ℕ → HandlerMgr → HandlerMgr
erase id [] = []
erase id ((j, h) ∷ m) = if j == id then m else (j, h) ∷ erase id m

abbrev pub phr_print_protos : ℤ
phr_print_protos = pos 100

-- The lines of print_supported_protocols: the number and the handler.
pub supported_protocols : HandlerMgr → List (ℕ × ℕ)
supported_protocols [] = []
supported_protocols ((id, none) ∷ m) = supported_protocols m
supported_protocols ((id, some h) ∷ m) = (id, h) ∷ supported_protocols m

module _ {W : Type 0} (handlers : Handlers W) where
  open handlers use {init, uninit, process, timer_event}

  register_found : HandlerMgr → ℕ → ℕ → W → Option (Option ℕ) → ℤ × HandlerMgr × W
  register_found m id h w (some other) = let (r, w') = uninit h w in (pos 1, m, w')
  register_found m id h w none = (pos 0, m ++ ((id, some h) ∷ []), w)

  pub register_proto : HandlerMgr → ℕ → Option ℕ → W → ℤ × HandlerMgr × W
  unfolding register_found
  register_proto m id none w = (negsuc 0, m, w)
  register_proto m id (some h) w =
      let (r, w') = init h w in
      if eqb_ℤ r (pos 0) then register_found m id h w' (find id m) else (negsuc 0, m, w')

  unregister_found : HandlerMgr → ℕ → W → Option (Option ℕ) → ℤ × HandlerMgr × W
  unregister_found m id w (some (some h)) = let (r, w') = uninit h w in (pos 0, erase id m, w')
  unregister_found m id w (some none) = (negsuc 0, m, w)
  unregister_found m id w none = (negsuc 0, m, w)

  pub unregister_proto : HandlerMgr → ℕ → W → ℤ × HandlerMgr × W
  unfolding unregister_found
  unregister_proto m id w = unregister_found m id w (find id m)

  -- The loop over the entries, which steps on before it erases one.
  clear_loop : List (ℕ × Option ℕ) → HandlerMgr → W → HandlerMgr × W
  clear_loop [] m w = (m, w)
  clear_loop ((id, h) ∷ entries) m w =
      let (code, m', w') = unregister_proto m id w in clear_loop entries m' w'

  pub clear_protos : HandlerMgr → W → HandlerMgr × W
  unfolding clear_loop
  clear_protos m w = let (left, w') = clear_loop m m w in ([], w')

  dispatch_found : HandlerMgr → ℤ → List ℕ → W → Option (Option ℕ) → ℤ × List (ℕ × ℕ) × W
  dispatch_found m fd buf w (some (some h)) =
      let (r, w') = process h fd buf w in
      (pos 0, if eqb_ℤ r phr_print_protos then supported_protocols m else [], w')
  dispatch_found m fd buf w (some none) = (negsuc 0, [], w)
  dispatch_found m fd buf w none = (negsuc 0, [], w)

  -- The return value, the lines printed, and the handlers' state.
  pub dispatch : HandlerMgr → ℕ → ℤ → List ℕ → W → ℤ × List (ℕ × ℕ) × W
  unfolding dispatch_found
  dispatch m id fd buf w = dispatch_found m fd buf w (find id m)

  pub timer_event_all : HandlerMgr → W → W
  timer_event_all [] w = w
  timer_event_all ((id, none) ∷ m) w = timer_event_all m w
  timer_event_all ((id, some h) ∷ m) w = timer_event_all m (timer_event h id w)

  timer_event_found : ℕ → W → Option (Option ℕ) → W
  timer_event_found id w (some (some h)) = timer_event h id w
  timer_event_found id w (some none) = w
  timer_event_found id w none = w

  pub timer_event_of : HandlerMgr → ℕ → W → W
  unfolding timer_event_found
  timer_event_of m id w = timer_event_found id w (find id m)
