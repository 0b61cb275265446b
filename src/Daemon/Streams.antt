-- ===== src/Daemon/Streams.antt =====
-- Where the standard streams and the other descriptors stand behind daemonize.
use mathlib.Core.Option.{some-injective, none-ne-some}
use ig_libs.Base.{
  ℕ, zero, suc, subst, ◌≤◌, ◌<◌, ◌≡◌, ◌≢◌, refl, inl, inr, ap, ◌∙◌, arith, ℤ, pos, negsuc, Bool,
  true, false, not, Bool-cases, Option, none, some, List, [], ◌∷◌, ltb, ltb→lt, ◌==◌, ==_iff,
  ==_refl, if◌then◌else◌,
}
use ig_libs.Daemon.{
  Kernel, Process, entered, copy_to, close_above, to_null, in_session, ForkAnswer, failed, child,
  parent, forked, daemonize,
}

is_in : ℕ → List ℕ → Bool
is_in d [] = false
is_in d (x ∷ xs) = let rest = is_in d xs in if d == x then true else rest

entered_same : (fd : ℕ) (file : Option ℕ) (table : ℕ → Option ℕ) → entered fd file table fd ≡ file
unfolding entered
entered_same fd file table = rw (==_refl fd)

entered_other :
    (fd : ℕ) (file : Option ℕ) (table : ℕ → Option ℕ) (d : ℕ)
    → d ≢ fd
    → entered fd file table d ≡ table d
unfolding entered
entered_other fd file table d ne = let apart : (d == fd) ≡ false = ground arith in rw apart

is_in_none : (d : ℕ) → 2 < d → is_in d (0 ∷ 1 ∷ 2 ∷ []) ≡ false
unfolding is_in
is_in_none d h = ground arith

-- The descriptors that are copied to get the file of `fd`, and the others stay.
record Copied (fd : ℕ) (tos : List ℕ) (q : Process) (out : Bool × Process) : Type 0 where
  leads : out.1.leads_session ≡ q.leads_session
  root : out.1.in_root ≡ q.in_root
  copies : out.0 ≡ true → (d : ℕ) → out.1.table d ≡ (if is_in d tos then q.table fd else q.table d)

copy_to-Copied :
    (k : Kernel) (fd : ℕ) (tos : List ℕ) (q : Process) → Copied fd tos q (copy_to k fd tos q)
unfolding copy_to is_in
copy_to-Copied k fd [] q = record { leads = refl; root = refl; copies = λ e d. refl }
copy_to-Copied k fd (to ∷ tos) q = elim (Bool-cases (k.dup2 fd to)) [
  | inl good ↦
      rw good
        (further (copy_to-Copied k fd tos (record q { table = entered to (q.table fd) q.table })))
  | inr bad ↦ rw bad (record { leads = refl; root = refl; copies = λ e d. cc })
]
  where
    own : entered to (q.table fd) q.table fd ≡ q.table fd
    own = elim (Bool-cases (fd == to)) [
      | inl same ↦
          ap (entered to (q.table fd) q.table) ((==_iff fd to).0 same)
          ∙ entered_same to (q.table fd) q.table
      | inr other ↦ entered_other to (q.table fd) q.table fd (ground arith)
    ]

    further :
        {out : Bool × Process}
        → Copied fd tos (record q { table = entered to (q.table fd) q.table }) out
        → Copied fd (to ∷ tos) q out
    further c = record {
      leads = c.leads;
      root = c.root;
      copies = λ e d.
          c.copies e d
          ∙ rw own (elim (Bool-cases (d == to)) [
            | inl same ↦ rw (same, (==_iff d to).0 same) (both (is_in to tos))
            | inr other ↦ rw other refl
          ]);
    }
      where
        both : (b : Bool) → (if b then q.table fd else q.table fd) ≡ q.table fd
        both true = refl
        both false = refl

-- What the descriptors stand for, by `noclose` and the descriptor of "/dev/null": as before, or the three streams are
-- that file and its own descriptor, above them, is closed again.
abbrev pub Files : Bool → Option ℕ → ℕ → Process → Process → Type 0
Files true opened null p q = (d : ℕ) → q.table d ≡ p.table d
Files false none null p q = (d : ℕ) → q.table d ≡ p.table d
Files false (some fd) null p q =
    ((d : ℕ) → d ≤ 2 → q.table d ≡ some null)
    × ((d : ℕ) → 2 < d → q.table d ≡ (if d == fd then none else p.table d))

-- Where the process stands behind daemonize.
pub record Standing (k : Kernel) (nochdir noclose : Bool) (p q : Process) : Type 0 where
  pub leads : q.leads_session ≡ true
  pub root : q.in_root ≡ (if nochdir then p.in_root else true)
  pub files : Files noclose k.open_null k.null p q

-- The process before the streams are looked at.
record Moved (nochdir : Bool) (p q : Process) : Type 0 where
  leads : q.leads_session ≡ true
  root : q.in_root ≡ (if nochdir then p.in_root else true)
  same : q.table ≡ p.table

-- 0 is an answer of the right process.
abbrev Good : (Process → Type 0) → ℤ × Process → Type 0
Good P (r, q) = r ≡ pos 0 → P q

module _ (k : Kernel) (p : Process) (nochdir : Bool) where
  abbrev Stands : Bool → Option ℕ → Process → Type 0
  Stands noclose opened q =
      (q.leads_session ≡ true)
      × (q.in_root ≡ (if nochdir then p.in_root else true))
      × Files noclose opened k.null p q

  close_above-Good :
      (fd : ℕ) (q : Process)
      → Moved nochdir p q
      → (out : Bool × Process)
      → Copied fd (0 ∷ 1 ∷ 2 ∷ []) (record q { table = entered fd (some k.null) q.table }) out
      → Good (Stands false (some fd)) (close_above k fd out)
  unfolding close_above is_in
  close_above-Good fd q m (false, r) c = λ e. cc
  close_above-Good fd q m (true, r) c = elim (Bool-cases (ltb 2 fd)) [
    | inl above ↦ rw above (elim (Bool-cases k.close_ok) [
      | inl good ↦ rw good (λ e. (
        c.leads ∙ m.leads,
        c.root ∙ m.root,
        (
          (λ d low.
              entered_other fd none r.table d (omega (arith, ltb→lt 2 fd above)) ∙ stream d low),
          (λ d high. elim (Bool-cases (d == fd)) [
            | inl here ↦ rw here refl
            | inr there ↦ rw there (other d high (ground arith))
          ]),
        ),
      ))
      | inr bad ↦ rw bad (λ e. cc)
    ])
    | inr low ↦ rw low (λ e. (
      c.leads ∙ m.leads,
      c.root ∙ m.root,
      (
        stream,
        (λ d high.
            let apart : (d == fd) ≡ false = ground arith in rw apart (other d high (ground arith))),
      ),
    ))
  ]
    where
      null_there : entered fd (some k.null) q.table fd ≡ some k.null
      null_there = entered_same fd (some k.null) q.table

      stream : (d : ℕ) → d ≤ 2 → r.table d ≡ some k.null
      stream zero low = c.copies refl 0 ∙ null_there
      stream (suc zero) low = c.copies refl 1 ∙ null_there
      stream (suc (suc zero)) low = c.copies refl 2 ∙ null_there
      stream (suc (suc (suc d))) low = absurd (omega arith)

      other : (d : ℕ) → 2 < d → d ≢ fd → r.table d ≡ p.table d
      other d high ne =
          c.copies refl d
          ∙ rw (is_in_none d high)
              (entered_other fd (some k.null) q.table d ne ∙ ap (λ t. t d) m.same)

  to_null-Good :
      (q : Process)
      → Moved nochdir p q
      → (opened : Option ℕ) → Good (Stands false opened) (to_null k opened q)
  unfolding to_null
  to_null-Good q m none = λ e. (m.leads, m.root, λ d. ap (λ t. t d) m.same)
  to_null-Good q m (some fd) = close_above-Good fd q m _ (copy_to-Copied k fd (0 ∷ 1 ∷ 2 ∷ []) _)

  streams-Good :
      (noclose : Bool) (q : Process)
      → Moved nochdir p q
      → Good (Stands noclose k.open_null) (if noclose then (pos 0, q) else to_null k k.open_null q)
  streams-Good true q m = λ e. (m.leads, m.root, λ d. ap (λ t. t d) m.same)
  streams-Good false q m = to_null-Good q m k.open_null

in_session-Good :
    (k : Kernel) (p : Process) (nochdir noclose : Bool)
    → Good
        (Stands k p nochdir noclose k.open_null)
        (in_session k nochdir noclose (record p { leads_session = true }))
in_session-Good k p true noclose =
    streams-Good k p true noclose (record p { leads_session = true })
      (record { leads = refl; root = refl; same = refl })
in_session-Good k p false noclose = by k.chdir
  where
    p' : Process
    p' = record p { leads_session = true; in_root = true }

    by :
        (b : Bool)
        → Good (Stands k p false noclose k.open_null) (
            if not b
            then (negsuc 0, record p { leads_session = true })
            else (if noclose then (pos 0, p') else to_null k k.open_null p'))
    by true = streams-Good k p false noclose p' (record { leads = refl; root = refl; same = refl })
    by false = λ e. cc

-- If daemonize returns 0 in the child, the process leads a session, and is in the root directory or, if told to stay, where it was. If it was
-- told to keep the streams, or "/dev/null" could not be opened, every descriptor is as it was. Else all three streams are that
-- file, its own descriptor is closed if it is above them, and every other descriptor above them is as it was.
pub daemonize_detaches :
    (k : Kernel) (p p' : Process) (nochdir noclose : Bool)
    → daemonize k nochdir noclose p ≡ some (pos 0, p')
    → Standing k nochdir noclose p p'
unfolding daemonize
daemonize_detaches k p p' nochdir noclose e = by k.fork e
  where
    told :
        (out : ℤ × Process)
        → Good (Stands k p nochdir noclose k.open_null) out
        → out ≡ (pos 0, p')
        → Standing k nochdir noclose p p'
    told out g e =
        let (l, r, f) = subst (Good (Stands k p nochdir noclose k.open_null)) e g refl in
        record { leads = l; root = r; files = f }

    session :
        (b : Bool)
        → Good (Stands k p nochdir noclose k.open_null) (
            if b
            then in_session k nochdir noclose (record p { leads_session = true })
            else (negsuc 0, p))
    session true = in_session-Good k p nochdir noclose
    session false = λ e. cc

    by :
        (f : ForkAnswer)
        → forked k nochdir noclose p f ≡ some (pos 0, p')
        → Standing k nochdir noclose p p'
    by failed e = cc
    by parent e = absurd (none-ne-some _ e)
    by child e = told _ (session k.setsid) (some-injective _ _ e)
