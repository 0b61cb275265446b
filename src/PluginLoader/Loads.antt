-- ===== src/PluginLoader/Loads.antt =====
-- PluginLoader::load keeps what is opened, closed and stored in step.
use ig_libs.Base.{
  ℕ, ◌+◌, ◌≤◌, ◌<◌, ℤ, pos, eqb_ℤ, ◌≡◌, inl, inr, refl, sym, ap, subst, ◌∙◌, arith, Option, none,
  some, List, [], ◌∷◌, ◌==◌, ==_iff, ==_refl, Bool-cases,
}
use ig_libs.PluginLoader.{
  PluginMap, find, load, call_if, registered, initialised, functions_found, iface_found,
  object_opened, load_absent,
}
use ig_libs.PluginLoader.Balance.{
  Event, opens, closes, calls, finds, opened, closed, handle, held, put, World, Answers, recorded,
  open_recorded, sym_recorded, IsFound, AllStored, Inv, Pending, held-insert, AllStored-insert,
  AllStored-later,
}

module _ (a : Answers)
    (own : (log : List Event) (so so' iface : ℕ)
      → a.to_sym log so ≡ some iface
      → IsFound a so' iface log
      → closed so' log < opened so' log
      → so' ≡ so) where
  -- The write of a handle changes no object that an entry stands for.
  put-same :
      (w : World) (x iface : ℕ)
      → a.to_sym w.log x ≡ some iface
      → (m : PluginMap) → ((so : ℕ) → closed so w.log + held so w.stored m ≤ opened so w.log)
      → AllStored a m w
      → ((so : ℕ) → held so (put iface x w.stored) m ≡ held so w.stored m)
        × AllStored a m (record w { stored = put iface x w.stored })
  put-same w x iface e [] few v = (λ so. refl, tt)
  put-same w x iface e ((path, q) ∷ m) few ((so, there, found), v) =
      let (same, all) = put-same w x iface e m (λ so. omega (arith, few so)) v in
      ((λ so. omega (arith, ap (handle so) kept, same so)), ((so, kept ∙ there, found), all))
    where
      is_open : closed so w.log < opened so w.log
      is_open =
          let one_held : handle so (w.stored q) ≡ 1 = ap (handle so) there ∙ rw (==_refl so) refl in
          omega (arith, few so, one_held)

      kept : put iface x w.stored q ≡ w.stored q
      kept = elim (Bool-cases (q == iface)) [
        | inr other ↦ rw other refl
        | inl here ↦ rw here (
            ap some (
              sym (
                own w.log x so iface e
                  (subst (λ i. IsFound a so i w.log) ((==_iff q iface).0 here) found) is_open))
            ∙ sym there)
      ]

  given_up :
      (m : PluginMap) (x : ℕ) (w : World)
      → Pending a m x w
      → Inv a m (record w { log = closes x ∷ w.log })
  given_up m x w v = record {
    balance = λ so. omega (arith, v.balance so);
    entries = AllStored-later a m w (closes x ∷ w.log) (λ so iface f. f) v.entries;
  }

  Pending-call :
      (m : PluginMap) (x f : ℕ) (w : World)
      → Pending a m x w
      → Pending a m x (record w { log = calls f ∷ w.log })
  Pending-call m x f w v = record {
    balance = v.balance;
    entries = AllStored-later a m w (calls f ∷ w.log) (λ so iface f. f) v.entries;
  }

  Pending-call_if :
      (m : PluginMap) (x : ℕ) (f : Option ℕ) (w : World)
      → Pending a m x w
      → Pending a m x (call_if (recorded a) (recorded a).call f w)
  Pending-call_if m x none w v = v
  Pending-call_if m x (some f) w v = Pending-call m x f w v

  registered-Inv :
      (m : PluginMap) (path : List ℕ) (x iface : ℕ) (r : ℤ) (w : World)
      → Pending a m x w
      → w.stored iface ≡ some x
      → IsFound a x iface w.log
      → let (code, m', w') = registered (recorded a) m path x iface (r, w) in Inv a m' w'
  unfolding registered
  registered-Inv m path x iface r w v there found = elim (Bool-cases (eqb_ℤ r (pos 0))) [
    | inl ready ↦ rw ready (record {
      balance = λ so.
          omega (arith, v.balance so, held-insert so w.stored path iface m, ap (handle so) there);
      entries = AllStored-insert a path iface m w (x, there, found) v.entries;
    })
    | inr failed ↦
        rw failed (given_up m x _ (Pending-call_if m x ((recorded a).iface_at iface w).uninit w v))
  ]

  functions_found-Inv :
      (m : PluginMap) (path : List ℕ) (x iface : ℕ) (ini reg : Option ℕ) (w : World)
      → Pending a m x w
      → w.stored iface ≡ some x
      → IsFound a x iface w.log
      → let (code, m', w') = functions_found (recorded a) m path x iface ini reg w in Inv a m' w'
  unfolding functions_found initialised
  functions_found-Inv m path x iface none none w v there found = given_up m x w v
  functions_found-Inv m path x iface none (some reg) w v there found = given_up m x w v
  functions_found-Inv m path x iface (some ini) none w v there found = given_up m x w v
  functions_found-Inv m path x iface (some ini) (some reg) w v there found =
      let v' = Pending-call m x ini w v in
      elim (Bool-cases (eqb_ℤ (a.to_call w.log ini) (pos 0))) [
        | inl ready ↦ rw ready (
            registered-Inv m path x iface (a.to_call (calls ini ∷ w.log) reg) _
              (Pending-call m x reg _ v') there found)
        | inr failed ↦ rw failed (given_up m x _ v')
      ]

  iface_found-Inv :
      (m : PluginMap) (path : List ℕ) (x : ℕ) (w : World) (answer : Option ℕ)
      → a.to_sym w.log x ≡ answer
      → Pending a m x w
      → let (code, m', w') = iface_found (recorded a) m path x (sym_recorded x answer w) in
        Inv a m' w'
  unfolding iface_found
  iface_found-Inv m path x w none e v = given_up m x w v
  iface_found-Inv m path x w (some iface) e v =
      let (same, all) = put-same w x iface e m (λ so. omega (arith, v.balance so)) v.entries in
      functions_found-Inv m path x iface _ _
        (record { log = finds x iface ∷ w.log; stored = put iface x w.stored })
        (record {
          balance = λ so. omega (arith, v.balance so, same so);
          entries =
              AllStored-later a m (record w { stored = put iface x w.stored })
                (finds x iface ∷ w.log) (λ so i f. inr f) all;
        })
        (rw (==_refl iface) refl) (inl (refl, refl, e))

  pub load-Inv :
      (m : PluginMap) (path : List ℕ) (w : World)
      → Inv a m w
      → let (code, m', w') = load (recorded a) m path w in Inv a m' w'
  unfolding load load_absent object_opened
  load-Inv m [] w v = v
  load-Inv m (c ∷ path) w v = absent (find (c ∷ path) m)
    where
      opened_now :
          (answer : Option ℕ)
          → let (code, m', w') = object_opened (recorded a) m (c ∷ path) (open_recorded answer w) in
            Inv a m' w'
      opened_now none = v
      opened_now (some x) =
          let w' : World = record w { log = opens x ∷ w.log } in
          iface_found-Inv m (c ∷ path) x w' (a.to_sym w'.log x) refl (record {
            balance = λ so. omega (arith, v.balance so);
            entries = AllStored-later a m w (opens x ∷ w.log) (λ so i f. f) v.entries;
          })

      absent :
          (found : Option ℕ)
          → let (code, m', w') = load_absent (recorded a) m (c ∷ path) w found in Inv a m' w'
      absent (some iface) = v
      absent none = opened_now (a.to_open w.log (c ∷ path))
