-- ===== src/Singleton/Safety.antt =====
-- GetInstance makes one object at most, and every thread that gets one gets this one.
use mathlib.Core.Option.{some-injective, none-ne-some}
use ig_libs.Base.{
  ℕ, ◌+◌, ◌≡◌, ◌≢◌, ◌⊎◌, refl, sym, ap, ◌∙◌, arith, subst, inl, inr, Bool, true, false, Bool-cases,
  Option, none, some, ◌==◌, ==_iff,
}
use ig_libs.Singleton.{
  Globals, Place, first_test, locking, second_test, making, unlocking, reading, returned,
  lock_taken, if_null, move, System, placed, Step, moves, calls, begin, Reach, start, later,
}

-- What a thread's place asks of the globals.
abbrev Fits : ℕ → Globals → Place → Type 0
Fits me g first_test = Unit {0}
Fits me g locking = Unit {0}
Fits me g second_test = g.m_lock ≡ some me
Fits me g making = (g.m_lock ≡ some me) × (g.m_instance ≡ none)
Fits me g unlocking = g.m_lock ≡ some me
Fits me g reading = Unit {0}
Fits me g (returned none) = Unit {0}
Fits me g (returned (some a)) = (a ≡ 0) × (g.m_instance ≡ some 0)

-- No object, or just the first.
abbrev Counts : Globals → Type 0
Counts g = ((g.m_instance ≡ none) × (g.created ≡ 0)) ⊎ ((g.m_instance ≡ some 0) × (g.created ≡ 1))

record Sound (s : System) : Type 0 where
  counts : Counts s.globals
  fits : (t : ℕ) → Fits t s.globals (s.threads t)

-- What a step of one thread leaves to the others.
record Leaves (me : ℕ) (g h : Globals) : Type 0 where
  instance_kept : g.m_instance ≡ some 0 → h.m_instance ≡ some 0
  theirs :
      (t : ℕ)
      → t ≢ me
      → g.m_lock ≡ some t
      → (h.m_lock ≡ some t) × ((g.m_instance ≡ none) → h.m_instance ≡ none)

Fits-Leaves :
    (me t : ℕ) (g h : Globals) (p : Place) → t ≢ me → Leaves me g h → Fits t g p → Fits t h p
Fits-Leaves me t g h first_test ne l f = tt
Fits-Leaves me t g h locking ne l f = tt
Fits-Leaves me t g h second_test ne l f = (l.theirs t ne f).0
Fits-Leaves me t g h making ne l (f, n) = ((l.theirs t ne f).0, (l.theirs t ne f).1 n)
Fits-Leaves me t g h unlocking ne l f = (l.theirs t ne f).0
Fits-Leaves me t g h reading ne l f = tt
Fits-Leaves me t g h (returned none) ne l f = tt
Fits-Leaves me t g h (returned (some a)) ne l (z, f) = (z, l.instance_kept f)

record Moved (me : ℕ) (g : Globals) (out : Globals × Place) : Type 0 where
  counts : Counts out.0
  fits : Fits me out.0 out.1
  leaves : Leaves me g out.0

same-Leaves : (me : ℕ) (g : Globals) → Leaves me g g
same-Leaves me g = record { instance_kept = λ e. e; theirs = λ t ne e. (e, λ n. n) }

abbrev IfMoved : ℕ → Globals → Option (Globals × Place) → Type 0
IfMoved me g none = Unit {0}
IfMoved me g (some out) = Moved me g out

stays : (me : ℕ) (g : Globals) (p : Place) → Counts g → Fits me g p → Moved me g (g, p)
stays me g p c f = record { counts = c; fits = f; leaves = same-Leaves me g }

-- The other threads do not hold the lock that `me` holds.
theirs_alone :
    (me t : ℕ) (g : Globals) {A : Type 0} → g.m_lock ≡ some me → t ≢ me → g.m_lock ≡ some t → A
theirs_alone me t g mine ne e = absurd (ne (some-injective t me (sym e ∙ mine)))

none_made : (g : Globals) → g.m_instance ≡ none → Counts g → g.created ≡ 0
none_made g n (inl (e, z)) = z
none_made g n (inr (e, z)) = absurd (none-ne-some 0 (sym n ∙ e))

move-Moved :
    (me : ℕ) (granted : Bool) (g : Globals) (p : Place)
    → Counts g
    → Fits me g p
    → IfMoved me g (move me granted g p)
unfolding move
move-Moved me granted g first_test c f = by g.m_instance
  where
    by : (i : Option ℕ) → Moved me g (g, if_null i locking reading)
    by none = stays me g locking c tt
    by (some a) = stays me g reading c tt
move-Moved me granted g locking c f = by g.m_lock refl
  where
    by : (l : Option ℕ) → g.m_lock ≡ l → IfMoved me g (lock_taken me g l)
    by none e = record {
      counts = c;
      fits = refl;
      leaves = record {
        instance_kept = λ i. i;
        theirs = λ t ne h. absurd (none-ne-some t (sym e ∙ h));
      };
    }
    by (some holder) e = tt
move-Moved me granted g second_test c f = by g.m_instance refl
  where
    by : (i : Option ℕ) → g.m_instance ≡ i → Moved me g (g, if_null i making unlocking)
    by none e = stays me g making c (f, e)
    by (some a) e = stays me g unlocking c f
move-Moved me true g making c (f, n) = record {
  counts = inr (ap some (none_made g n c), ap (λ k. k + 1) (none_made g n c));
  fits = f;
  leaves = record {
    instance_kept = λ i. absurd (none-ne-some 0 (sym n ∙ i));
    theirs = λ t ne. theirs_alone me t g f ne;
  };
}
move-Moved me false g making c (f, n) = record {
  counts = inl (refl, none_made g n c);
  fits = f;
  leaves = record {
    instance_kept = λ i. absurd (none-ne-some 0 (sym n ∙ i));
    theirs = λ t ne. theirs_alone me t g f ne;
  };
}
move-Moved me granted g unlocking c f = record {
  counts = c;
  fits = tt;
  leaves = record { instance_kept = λ i. i; theirs = λ t ne. theirs_alone me t g f ne };
}
move-Moved me granted g reading c f = by g.m_instance refl c
  where
    by : (i : Option ℕ) → g.m_instance ≡ i → Counts g → Moved me g (g, returned i)
    by none e c = stays me g (returned none) c tt
    by (some a) e (inl (n, z)) = absurd (none-ne-some a (sym n ∙ e))
    by (some a) e (inr (i, z)) =
        stays me g (returned (some a)) c (some-injective a 0 (sym e ∙ i), i)
move-Moved me granted g (returned p) c f = stays me g (returned p) c f

begin-Sound : Sound begin
begin-Sound = record { counts = inl (refl, refl); fits = λ t. tt }

placed-Fits :
    (me t : ℕ) (g : Globals) (p : Place) (threads : ℕ → Place)
    → Fits me g p
    → (t ≢ me → Fits t g (threads t))
    → Fits t g (placed me p threads t)
placed-Fits me t g p threads mine theirs = elim (Bool-cases (t == me)) [
  | inl same ↦ rw same (subst (λ x. Fits x g p) (sym ((==_iff t me).0 same)) mine)
  | inr apart ↦ rw apart (theirs (ground arith))
]

Step-Sound : {s t : System} → Step s t → Sound s → Sound t
Step-Sound {s} (moves me granted {g} {p} e) i =
    let m : Moved me s.globals (g, p) =
      subst (IfMoved me s.globals) e
        (move-Moved me granted s.globals (s.threads me) i.counts (i.fits me)) in
    record {
      counts = m.counts;
      fits = λ t.
          placed-Fits me t g p s.threads m.fits
            (λ ne. Fits-Leaves me t s.globals g (s.threads t) ne m.leaves (i.fits t));
    }
Step-Sound {s} (calls me e) i = record {
  counts = i.counts;
  fits = λ t. placed-Fits me t s.globals first_test s.threads tt (λ ne. i.fits t);
}

Reach-Sound : {s : System} → Reach s → Sound s
Reach-Sound start = begin-Sound
Reach-Sound (later r step) = Step-Sound step (Reach-Sound r)

-- However many threads call GetInstance, and however their steps are mixed: if two calls have returned an object, they have returned
-- the same one, it is the one that m_instance points to, and no other was ever made.
pub get_instance_unique :
    (s : System) (t u a b : ℕ)
    → Reach s
    → s.threads t ≡ returned (some a)
    → s.threads u ≡ returned (some b)
    → (a ≡ b) × (s.globals.m_instance ≡ some a) × (s.globals.created ≡ 1)
get_instance_unique s t u a b r et eu =
    let i : Sound s = Reach-Sound r in
    let (za, there) : Fits t s.globals (returned (some a)) =
      subst (Fits t s.globals) et (i.fits t) in
    let (zb, _) : Fits u s.globals (returned (some b)) = subst (Fits u s.globals) eu (i.fits u) in
    (za ∙ sym zb, there ∙ ap some (sym za), only there i.counts)
  where
    only : s.globals.m_instance ≡ some 0 → Counts s.globals → s.globals.created ≡ 1
    only there (inl (n, z)) = absurd (none-ne-some 0 (sym n ∙ there))
    only there (inr (i, z)) = z
