-- ===== src/PluginLoader/Balance.antt =====
-- PluginLoader: what is opened, what is closed and what stands in the table. The linker and the plugins answer as
-- they like, also after what happened before; what they were asked is recorded, the newest first.
use ig_libs.Base.{
  ℕ, ◌+◌, ℤ, ◌≡◌, ◌⊎◌, inl, inr, refl, ap, ◌∙◌, arith, Option, none, some, List, [], ◌∷◌, ◌==◌,
  Bool-cases, if◌then◌else◌,
}
use ig_libs.PluginLoader.{
  PluginIface, Linker, PluginMap, same_path, path_before, find, erase, insert,
}

pub data Event : Type 0 where
  opens closes calls : ℕ → Event
  finds : (so iface : ℕ) → Event

abbrev pub one : ℕ → ℕ → ℕ
one so x = if x == so then 1 else 0

abbrev pub opened : ℕ → List Event → ℕ
opened so [] = 0
opened so (opens x ∷ log) = one so x + opened so log
opened so (closes x ∷ log) = opened so log
opened so (calls f ∷ log) = opened so log
opened so (finds x iface ∷ log) = opened so log

abbrev pub closed : ℕ → List Event → ℕ
closed so [] = 0
closed so (opens x ∷ log) = closed so log
closed so (closes x ∷ log) = one so x + closed so log
closed so (calls f ∷ log) = closed so log
closed so (finds x iface ∷ log) = closed so log

-- What happened, and what stands in `plugin_so` at each address.
pub record World : Type 0 where
  pub log : List Event
  pub stored : ℕ → Option ℕ

abbrev pub handle : ℕ → Option ℕ → ℕ
handle so none = 0
handle so (some x) = one so x

-- How many entries of the table have the handle, in the objects that they stand for.
abbrev pub held : ℕ → (ℕ → Option ℕ) → PluginMap → ℕ
held so stored [] = 0
held so stored ((path, iface) ∷ m) = handle so (stored iface) + held so stored m

-- Each handle was opened as often as it was closed, and once more for each entry that has it.
abbrev pub Balanced : PluginMap → World → Type 0
Balanced m w = (so : ℕ) → opened so w.log ≡ closed so w.log + held so w.stored m

-- The answers, to the events before and the question.
pub record Answers : Type 0 where
  pub to_open : List Event → List ℕ → Option ℕ
  pub to_sym : List Event → ℕ → Option ℕ
  pub to_read : List Event → ℕ → PluginIface
  pub to_close : List Event → ℕ → ℤ
  pub to_call : List Event → ℕ → ℤ

abbrev pub open_recorded : Option ℕ → World → Option ℕ × World
open_recorded none w = (none, w)
open_recorded (some so) w = (some so, record w { log = opens so ∷ w.log })

abbrev pub sym_recorded : ℕ → Option ℕ → World → Option ℕ × World
sym_recorded so none w = (none, w)
sym_recorded so (some iface) w = (some iface, record w { log = finds so iface ∷ w.log })

abbrev pub put : ℕ → ℕ → (ℕ → Option ℕ) → ℕ → Option ℕ
put iface so stored other = if other == iface then some so else stored other

abbrev pub recorded : Answers → Linker World
recorded a = record {
  dlopen = λ path w. open_recorded (a.to_open w.log path) w;
  dlsym = λ so w. sym_recorded so (a.to_sym w.log so) w;
  iface_at = λ iface w. record (a.to_read w.log iface) { plugin_so = w.stored iface };
  put_so = λ iface so w. record w { stored = put iface so w.stored };
  dlclose = λ so w. (a.to_close w.log so, record w { log = closes so ∷ w.log });
  call = λ f w. (a.to_call w.log f, record w { log = calls f ∷ w.log });
  call_dispatcher = λ f w. (a.to_call w.log f, record w { log = calls f ∷ w.log });
}

-- The linker gave the interface for the handle.
abbrev pub IsFound : Answers → ℕ → ℕ → List Event → Type 0
IsFound a so iface [] = ⊥
IsFound a so iface (finds x y ∷ log) =
    ((x ≡ so) × (y ≡ iface) × (a.to_sym log x ≡ some y)) ⊎ IsFound a so iface log
IsFound a so iface (opens x ∷ log) = IsFound a so iface log
IsFound a so iface (closes x ∷ log) = IsFound a so iface log
IsFound a so iface (calls f ∷ log) = IsFound a so iface log

-- Each entry's object has a handle for which the linker gave it.
abbrev pub AllStored : Answers → PluginMap → World → Type 0
AllStored a [] w = Unit {0}
AllStored a ((path, iface) ∷ m) w =
    ((so : ℕ) × (w.stored iface ≡ some so) × IsFound a so iface w.log) × AllStored a m w

pub record Inv (a : Answers) (m : PluginMap) (w : World) : Type 0 where
  pub balance : Balanced m w
  pub entries : AllStored a m w

-- As before, while `x` is open and has no entry.
pub record Pending (a : Answers) (m : PluginMap) (x : ℕ) (w : World) : Type 0 where
  pub balance : (so : ℕ) → opened so w.log ≡ closed so w.log + held so w.stored m + one so x
  pub entries : AllStored a m w

pub held-insert :
    (so : ℕ) (stored : ℕ → Option ℕ) (path : List ℕ) (iface : ℕ) (m : PluginMap)
    → held so stored (insert path iface m) ≡ handle so (stored iface) + held so stored m
unfolding insert
held-insert so stored path iface [] = refl
held-insert so stored path iface ((p, other) ∷ m) = elim (Bool-cases (path_before path p)) [
  | inl first ↦ rw first refl
  | inr later ↦ rw later (omega (arith, held-insert so stored path iface m))
]

pub AllStored-insert :
    (a : Answers) (path : List ℕ) (iface : ℕ) (m : PluginMap) (w : World)
    → ((so : ℕ) × (w.stored iface ≡ some so) × IsFound a so iface w.log)
    → AllStored a m w
    → AllStored a (insert path iface m) w
unfolding insert
AllStored-insert a path iface [] w h v = (h, tt)
AllStored-insert a path iface ((p, other) ∷ m) w h v = elim (Bool-cases (path_before path p)) [
  | inl first ↦ rw first (h, v)
  | inr later ↦ rw later (v.0, AllStored-insert a path iface m w h v.1)
]

abbrev pub handle_found : ℕ → (ℕ → Option ℕ) → Option ℕ → ℕ
handle_found so stored none = 0
handle_found so stored (some iface) = handle so (stored iface)

pub held-erase :
    (so : ℕ) (stored : ℕ → Option ℕ) (path : List ℕ) (m : PluginMap)
    → held so stored m ≡ held so stored (erase path m) + handle_found so stored (find path m)
unfolding erase find
held-erase so stored path [] = refl
held-erase so stored path ((p, iface) ∷ m) = elim (Bool-cases (same_path p path)) [
  | inl here ↦ rw here (omega arith)
  | inr there ↦ rw there (omega (arith, held-erase so stored path m))
]

pub AllStored-erase :
    (a : Answers) (path : List ℕ) (m : PluginMap) (w : World)
    → AllStored a m w
    → AllStored a (erase path m) w
unfolding erase
AllStored-erase a path [] w v = tt
AllStored-erase a path ((p, iface) ∷ m) w v = elim (Bool-cases (same_path p path)) [
  | inl here ↦ rw here v.1
  | inr there ↦ rw there (v.0, AllStored-erase a path m w v.1)
]

-- More events leave what was found found.
pub AllStored-moved :
    (a : Answers) (m : PluginMap) (w w' : World)
    → w'.stored ≡ w.stored
    → ((so iface : ℕ) → IsFound a so iface w.log → IsFound a so iface w'.log)
    → AllStored a m w
    → AllStored a m w'
AllStored-moved a [] w w' same h v = tt
AllStored-moved a ((path, iface) ∷ m) w w' same h ((so, e, f), v) =
    ((so, ap (λ stored. stored iface) same ∙ e, h so iface f), AllStored-moved a m w w' same h v)

pub AllStored-later :
    (a : Answers) (m : PluginMap) (w : World) (log : List Event)
    → ((so iface : ℕ) → IsFound a so iface w.log → IsFound a so iface log)
    → AllStored a m w
    → AllStored a m (record w { log = log })
AllStored-later a m w log = AllStored-moved a m w (record w { log = log }) refl
