-- ===== src/PluginLoader/Runs.antt =====
-- PluginLoader: runs of load and unload on a new loader.
use ig_libs.Base.{
  ℕ, suc, ◌+◌, ◌<◌, ◌≡◌, ◌∙◌, refl, ap, ap₂, arith, Option, none, some, List, [], ◌∷◌, length, map,
}
use ig_libs.PluginLoader.{
  PluginMap, find, erase, load, load_list, unload, unload_list, clear_loop, clear_plugins, call_if,
  unload_so, unload_found,
}
use ig_libs.PluginLoader.Balance.{
  Answers, recorded, Event, World, opened, closed, handle, handle_found, held, IsFound, Balanced,
  Inv, held-erase, AllStored-erase, AllStored-moved,
}
use ig_libs.PluginLoader.Loads.{load-Inv}

pub data Op : Type 0 where
  loads unloads : List (List ℕ) → Op
  clears : Op

-- What a call returns: the number of its paths, and nothing where it is clear_plugins.
abbrev pub op_length : Op → ℕ
op_length (loads paths) = length paths
op_length (unloads paths) = length paths
op_length clears = 0

abbrev pub new_world : World
new_world = record { log = []; stored = λ iface. none }

-- What unloading leaves of the world.
record Closed (a : Answers) (found : Option ℕ) (w w' : World) : Type 0 where
  stored : w'.stored ≡ w.stored
  opens : (so : ℕ) → opened so w'.log ≡ opened so w.log
  closings : (so : ℕ) → closed so w'.log ≡ closed so w.log + handle_found so w.stored found
  finds : (so iface : ℕ) → IsFound a so iface w.log → IsFound a so iface w'.log

module _ (a : Answers) where
  abbrev Same : World → World → Type 0
  Same w w' =
      (w'.stored ≡ w.stored)
      × ((so : ℕ) → opened so w'.log ≡ opened so w.log)
      × ((so : ℕ) → closed so w'.log ≡ closed so w.log)
      × ((so iface : ℕ) → IsFound a so iface w.log → IsFound a so iface w'.log)

  call_if-Same : (f : Option ℕ) (w : World) → Same w (call_if (recorded a) (recorded a).call f w)
  call_if-Same none w = (refl, (λ so. refl), (λ so. refl), (λ so iface h. h))
  call_if-Same (some p) w = (refl, (λ so. refl), (λ so. refl), (λ so iface h. h))

  unload_so-Closed :
      (iface : ℕ) (w : World) (so : Option ℕ)
      → w.stored iface ≡ so
      → Closed a (some iface) w (unload_so (recorded a) iface so w).1
  unfolding unload_so
  unload_so-Closed iface w none e = record {
    stored = refl;
    opens = λ so. refl;
    closings = λ so. omega (arith, ap (handle so) e);
    finds = λ so iface h. h;
  }
  unload_so-Closed iface w (some x) e =
      let first = call_if-Same ((recorded a).iface_at iface w).unregister_proto w in
      let w1 =
        call_if (recorded a) (recorded a).call_dispatcher
          ((recorded a).iface_at iface w).unregister_proto w in
      let second = call_if-Same ((recorded a).iface_at iface w1).uninit w1 in
      record {
        stored = second.0 ∙ first.0;
        opens = λ so. second.1 so ∙ first.1 so;
        closings = λ so. omega (arith, second.2 so, first.2 so, ap (handle so) e);
        finds = λ so i h. second.3 so i (first.3 so i h);
      }

  unload_found-Closed :
      (found : Option ℕ) (w : World) → Closed a found w (unload_found (recorded a) found w).1
  unfolding unload_found
  unload_found-Closed none w = record {
    stored = refl;
    opens = λ so. refl;
    closings = λ so. omega arith;
    finds = λ so iface h. h;
  }
  unload_found-Closed (some iface) w = unload_so-Closed iface w (w.stored iface) refl

  unload-Inv :
      (m : PluginMap) (path : List ℕ) (w : World)
      → Inv a m w
      → let (code, m', w') = unload (recorded a) m path w in Inv a m' w'
  unfolding unload
  unload-Inv m [] w v = v
  unload-Inv m (c ∷ path) w v =
      let w' = (unload_found (recorded a) (find (c ∷ path) m) w).1 in
      let r = unload_found-Closed (find (c ∷ path) m) w in
      record {
        balance = λ so. omega (
          arith,
          v.balance so,
          r.opens so,
          r.closings so,
          held-erase so w.stored (c ∷ path) m,
          ap (λ st. held so st (erase (c ∷ path) m)) r.stored,
        );
        entries =
            AllStored-moved a (erase (c ∷ path) m) w w' r.stored r.finds
              (AllStored-erase a (c ∷ path) m w v.entries);
      }

  unload_list-Inv :
      (paths : List (List ℕ)) (m : PluginMap) (w : World)
      → Inv a m w
      → let (n, m', w') = unload_list (recorded a) m paths w in Inv a m' w' × (n ≡ length paths)
  unfolding unload_list
  unload_list-Inv [] m w v = (v, refl)
  unload_list-Inv (path ∷ paths) m w v =
      let (code, m', w') = unload (recorded a) m path w in
      let rest = unload_list-Inv paths m' w' (unload-Inv m path w v) in (rest.0, ap suc rest.1)

  clear_loop-Inv :
      (rest m : PluginMap) (w : World)
      → Inv a m w
      → let (m', w') = clear_loop (recorded a) rest m w in Inv a m' w'
  unfolding clear_loop
  clear_loop-Inv [] m w v = v
  clear_loop-Inv ((path, iface) ∷ rest) m w v =
      let (code, m', w') = unload (recorded a) m path w in
      clear_loop-Inv rest m' w' (unload-Inv m path w v)

  pub run : PluginMap → World → List Op → List ℕ × PluginMap × World
  run m w [] = ([], m, w)
  run m w (loads paths ∷ ops) =
      let (n, m', w') = load_list (recorded a) m paths w in
      let (ns, m'', w'') = run m' w' ops in (n ∷ ns, m'', w'')
  run m w (unloads paths ∷ ops) =
      let (n, m', w') = unload_list (recorded a) m paths w in
      let (ns, m'', w'') = run m' w' ops in (n ∷ ns, m'', w'')
  run m w (clears ∷ ops) =
      let (m', w') = clear_plugins (recorded a) m w in
      let (ns, m'', w'') = run m' w' ops in (0 ∷ ns, m'', w'')

module _ (a : Answers)
    (own : (log : List Event) (so so' iface : ℕ)
      → a.to_sym log so ≡ some iface
      → IsFound a so' iface log
      → closed so' log < opened so' log
      → so' ≡ so) where
  load_list-Inv :
      (paths : List (List ℕ)) (m : PluginMap) (w : World)
      → Inv a m w
      → let (n, m', w') = load_list (recorded a) m paths w in Inv a m' w' × (n ≡ length paths)
  unfolding load_list
  load_list-Inv [] m w v = (v, refl)
  load_list-Inv (path ∷ paths) m w v =
      let (code, m', w') = load (recorded a) m path w in
      let rest = load_list-Inv paths m' w' (load-Inv a own m path w v) in (rest.0, ap suc rest.1)

  run-Inv :
      (ops : List Op) (m : PluginMap) (w : World)
      → Inv a m w
      → let (ns, m', w') = run a m w ops in Inv a m' w' × (ns ≡ map op_length ops)
  unfolding run clear_plugins
  run-Inv [] m w v = (v, refl)
  run-Inv (loads paths ∷ ops) m w v =
      let (n, m', w') = load_list (recorded a) m paths w in
      let now = load_list-Inv paths m w v in
      let rest = run-Inv ops m' w' now.0 in (rest.0, ap₂ ◌∷◌ now.1 rest.1)
  run-Inv (unloads paths ∷ ops) m w v =
      let (n, m', w') = unload_list (recorded a) m paths w in
      let now = unload_list-Inv a paths m w v in
      let rest = run-Inv ops m' w' now.0 in (rest.0, ap₂ ◌∷◌ now.1 rest.1)
  run-Inv (clears ∷ ops) m w v =
      let (m', w') = clear_loop (recorded a) m m w in
      let rest = run-Inv ops m' w' (clear_loop-Inv a m m w v) in (rest.0, ap (λ ns. 0 ∷ ns) rest.1)

  -- Let the linker give no interface for a handle that it gave before for another handle that is still open. Whatever lists a client loads and unloads
  -- on a new loader, between calls of clear_plugins, and whatever else the linker and the plugins answer, each shared object was opened as often as it was closed, and
  -- once more for each entry of the table whose interface has its handle; each call of load and unload returns the number of its paths,
  -- whether they were loaded or not.
  pub loader-Balanced :
      (ops : List Op)
      → let (ns, m, w) = run a [] new_world ops in Balanced m w × (ns ≡ map op_length ops)
  loader-Balanced ops =
      let r = run-Inv ops [] new_world (record { balance = λ so. refl; entries = tt }) in
      (r.0.balance, r.1)
