-- ===== src/PluginLoader.antt =====
-- plugin_loader.h, plugin_loader.cpp and plugin_iface.h: shared objects and the table of those that are loaded. The
-- dynamic linker and the plugins' functions are a parameter; each call takes the state that they share, the
-- dispatcher and the memory among it. An interface is one object, at an address: the table has addresses, and the loader writes the handle
-- into the object.
pub mod Balance
pub mod Loads
pub mod Runs
mod Tests
use ig_libs.Base.{
  ℕ, suc, ◌+◌, ℤ, pos, negsuc, eqb_ℤ, Bool, true, false, not, ◌&&◌, ◌||◌, Option, none, some, List,
  [], ◌∷◌, map, ltb, ◌==◌, if◌then◌else◌,
}

-- A function pointer is `none` if it is NULL.
pub record PluginIface : Type 0 where
  pub plugin_so : Option ℕ
  pub init : Option ℕ
  pub uninit : Option ℕ
  pub register_proto : Option ℕ
  pub unregister_proto : Option ℕ

-- `dlopen`, `dlsym` of "g_plugin_iface", what stands at an address and the write of `plugin_so` there, `dlclose`, and the calls of a
-- plugin's functions, without and with the dispatcher.
pub record Linker (W : Type 0) : Type 0 where
  pub dlopen : List ℕ → W → Option ℕ × W
  pub dlsym : ℕ → W → Option ℕ × W
  pub iface_at : ℕ → W → PluginIface
  pub put_so : ℕ → ℕ → W → W
  pub dlclose : ℕ → W → ℤ × W
  pub call : ℕ → W → ℤ × W
  pub call_dispatcher : ℕ → W → ℤ × W

pub same_path : List ℕ → List ℕ → Bool
same_path [] [] = true
same_path (c ∷ p) (d ∷ q) = c == d && same_path p q
same_path _ _ = false

-- The order of `std::string`.
pub path_before : List ℕ → List ℕ → Bool
path_before [] [] = false
path_before [] (d ∷ q) = true
path_before (c ∷ p) [] = false
path_before (c ∷ p) (d ∷ q) = ltb c d || c == d && path_before p q

-- `m_plugins`, in the order of the paths.
abbrev pub PluginMap : Type 0
PluginMap = List (List ℕ × ℕ)

pub find : List ℕ → PluginMap → Option ℕ
find path [] = none
find path ((p, iface) ∷ m) = if same_path p path then some iface else find path m

unfoldable pub erase : List ℕ → PluginMap → PluginMap
erase path [] = []
erase path ((p, iface) ∷ m) = if same_path p path then m else (p, iface) ∷ erase path m

-- `insert` of a path that is not there.
unfoldable pub insert : List ℕ → ℕ → PluginMap → PluginMap
insert path iface [] = (path, iface) ∷ []
insert path iface ((p, other) ∷ m) =
    if path_before path p then (path, iface) ∷ (p, other) ∷ m else (p, other) ∷ insert path iface m

module _ {W : Type 0} (linker : Linker W) where
  open linker use {dlopen, dlsym, iface_at, put_so, dlclose, call, call_dispatcher}

  -- A call of a function that may be missing.
  abbrev call_if : (ℕ → W → ℤ × W) → Option ℕ → W → W
  call_if f none w = w
  call_if f (some p) w = let (r, w') = f p w in w'

  -- `dlclose`, and a load that failed.
  abbrev give_up : PluginMap → ℕ → W → ℤ × PluginMap × W
  give_up m so w = let (r, w') = dlclose so w in (negsuc 0, m, w')

  registered : PluginMap → List ℕ → ℕ → ℕ → ℤ × W → ℤ × PluginMap × W
  registered m path so iface (r, w) =
      if eqb_ℤ r (pos 0)
      then (pos 0, insert path iface m, w)
      else give_up m so (call_if call (iface_at iface w).uninit w)

  initialised : PluginMap → List ℕ → ℕ → ℕ → ℕ → ℤ × W → ℤ × PluginMap × W
  initialised m path so iface reg (r, w) =
      if eqb_ℤ r (pos 0) then registered m path so iface (call_dispatcher reg w) else give_up m so w

  -- `init` does not change the pointer to `register_proto`, so it is read once.
  functions_found : PluginMap → List ℕ → ℕ → ℕ → Option ℕ → Option ℕ → W → ℤ × PluginMap × W
  functions_found m path so iface (some ini) (some reg) w =
      initialised m path so iface reg (call ini w)
  functions_found m path so iface _ _ w = give_up m so w

  -- The handle is written into the interface, in whatever object that stands.
  iface_found : PluginMap → List ℕ → ℕ → Option ℕ × W → ℤ × PluginMap × W
  iface_found m path so (none, w) = give_up m so w
  iface_found m path so (some iface, w) =
      let w' = put_so iface so w in
      functions_found m path so iface (iface_at iface w').init (iface_at iface w').register_proto w'

  object_opened : PluginMap → List ℕ → Option ℕ × W → ℤ × PluginMap × W
  object_opened m path (none, w) = (negsuc 0, m, w)
  object_opened m path (some so, w) = iface_found m path so (dlsym so w)

  load_absent : PluginMap → List ℕ → W → Option ℕ → ℤ × PluginMap × W
  load_absent m path w (some iface) = (negsuc 1, m, w)
  load_absent m path w none = object_opened m path (dlopen path w)

  pub load : PluginMap → List ℕ → W → ℤ × PluginMap × W
  load m [] w = (negsuc 0, m, w)
  load m (c ∷ path) w = load_absent m (c ∷ path) w (find (c ∷ path) m)

  -- The count goes up for each path, whatever `load` returns.
  pub load_list : PluginMap → List (List ℕ) → W → ℕ × PluginMap × W
  load_list m [] w = (0, m, w)
  load_list m (path ∷ paths) w =
      let (code, m', w') = load m path w in
      let (n, m'', w'') = load_list m' paths w' in (suc n, m'', w'')

  -- The calls on the interface found, and the return value.
  unload_so : ℕ → Option ℕ → W → ℤ × W
  unload_so iface none w = (pos 0, w)
  unload_so iface (some so) w =
      let w1 = call_if call_dispatcher (iface_at iface w).unregister_proto w in
      let (r, w2) = dlclose so (call_if call (iface_at iface w1).uninit w1) in
      (if eqb_ℤ r (pos 0) then pos 0 else negsuc 0, w2)

  unload_found : Option ℕ → W → ℤ × W
  unload_found none w = (pos 0, w)
  unload_found (some iface) w = unload_so iface (iface_at iface w).plugin_so w

  pub unload : PluginMap → List ℕ → W → ℤ × PluginMap × W
  unload m [] w = (negsuc 0, m, w)
  unload m (c ∷ path) w =
      let (code, w') = unload_found (find (c ∷ path) m) w in (code, erase (c ∷ path) m, w')

  pub unload_list : PluginMap → List (List ℕ) → W → ℕ × PluginMap × W
  unload_list m [] w = (0, m, w)
  unload_list m (path ∷ paths) w =
      let (code, m', w') = unload m path w in
      let (n, m'', w'') = unload_list m' paths w' in (suc n, m'', w'')

  clear_loop : PluginMap → PluginMap → W → PluginMap × W
  clear_loop [] m w = (m, w)
  clear_loop ((path, iface) ∷ rest) m w =
      let (code, m', w') = unload m path w in clear_loop rest m' w'

  pub clear_plugins : PluginMap → W → PluginMap × W
  clear_plugins m w = clear_loop m m w
