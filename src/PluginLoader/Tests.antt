-- ===== src/PluginLoader/Tests.antt =====
-- A loader whose first plugin starts and whose second fails to register.
use ig_libs.Base.{
  ℕ, pos, negsuc, ◌<◌, ◌≡◌, ◌∙◌, sym, inl, inr, refl, Option, none, some, List, [], ◌∷◌, map, ◌==◌,
  if◌then◌else◌,
}
use mathlib.Core.Option.{some-injective}
use ig_libs.PluginLoader.{
  load_list, clear_plugins, clear_loop, unload, unload_found, unload_so, erase, same_path, insert,
  path_before, load, find, load_absent, object_opened, iface_found, functions_found, initialised,
  registered,
}
use ig_libs.PluginLoader.Balance.{
  Answers, Balanced, recorded, Event, opens, closes, calls, finds, opened, closed, IsFound,
}
use ig_libs.PluginLoader.Runs.{
  Op, loads, unloads, clears, new_world, run, op_length, loader-Balanced,
}

abbrev good_path : List ℕ
good_path = 97 ∷ []

abbrev bad_path : List ℕ
bad_path = 98 ∷ []

abbrev to_open : List ℕ → Option ℕ
to_open [] = none
to_open (c ∷ path) = if c == 97 then some 1 else (if c == 98 then some 2 else none)

-- Function 12, which registers for the second plugin, fails. An interface stands at the address of its handle.
abbrev answers : Answers
answers = record {
  to_open = λ log path. to_open path;
  to_sym = λ log so. some so;
  to_read = λ log iface. record {
    plugin_so = none;
    init = some iface;
    uninit = none;
    register_proto = if iface == 1 then some 11 else some 12;
    unregister_proto = none;
  };
  to_close = λ log so. pos 0;
  to_call = λ log f. if f == 12 then negsuc 0 else pos 0;
}

own_iface :
    (log : List Event) (so so' iface : ℕ)
    → answers.to_sym log so ≡ some iface
    → IsFound answers so' iface log
    → closed so' log < opened so' log
    → so' ≡ so
own_iface log so so' iface e found still = found_at log found ∙ sym (some-injective so iface e)
  where
    found_at : (log : List Event) → IsFound answers so' iface log → so' ≡ iface
    found_at [] h = absurd h
    found_at (finds x y ∷ log) (inl (p, q, r)) = sym p ∙ some-injective x y r ∙ q
    found_at (finds x y ∷ log) (inr h) = found_at log h
    found_at (opens x ∷ log) h = found_at log h
    found_at (closes x ∷ log) h = found_at log h
    found_at (calls f ∷ log) h = found_at log h

abbrev ops : List Op
ops = loads (good_path ∷ bad_path ∷ good_path ∷ []) ∷ unloads (bad_path ∷ []) ∷ clears ∷ []

loader-Balanced_example :
    let (ns, m, w) = run answers [] new_world ops in Balanced m w × (ns ≡ map op_length ops)
loader-Balanced_example = loader-Balanced answers own_iface ops

rejects : (load (recorded answers) [] bad_path new_world).0 ≡ negsuc 0
unfolding load find load_absent object_opened iface_found functions_found initialised registered
rejects = refl

-- Where the linker gives one object for two handles, the second load writes its handle over the first, which is then never closed.
abbrev shared_answers : Answers
shared_answers = record answers { to_sym = λ log so. some 1; to_call = λ log f. pos 0 }

first_handle_lost :
    let (n, m, w) = load_list (recorded shared_answers) [] (good_path ∷ bad_path ∷ []) new_world in
    let (m', w') = clear_plugins (recorded shared_answers) m w in
    (opened 1 w'.log ≡ 1) × (closed 1 w'.log ≡ 0) × (closed 2 w'.log ≡ 2)
unfolding load load_list find load_absent object_opened iface_found functions_found initialised
    registered insert path_before clear_plugins clear_loop unload unload_found unload_so erase
    same_path
first_handle_lost = (refl, refl, refl)
