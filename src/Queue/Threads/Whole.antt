-- ===== src/Queue/Threads/Whole.antt =====
-- What the two threads put in and take out, under every interleaving.
use ig_libs.Base.{
  ℕ, suc, ◌+◌, ◌≤◌, ◌≡◌, ◌⊎◌, refl, sym, ap, ◌∙◌, arith, pos, negsuc, List, [], ◌∷◌, ◌++◌,
  append_assoc, length,
}
use ig_libs.Ring.Shared.{System, idle, storing, loading}
use ig_libs.Ring.Shared.Safety.{Inv}
use ig_libs.Queue.Threads.{
  Putter, Taker, resting, tested, putting, ringing, getting, clearing, Written, Taken, Pair,
}

-- The messages that write took, one behind the other, and their number.
abbrev pub put_in : List Written → List ℕ
put_in [] = []
put_in ((msg, pos n) ∷ log) = msg ++ put_in log
put_in ((msg, negsuc n) ∷ log) = put_in log

abbrev pub put_count : List Written → ℕ
put_count [] = 0
put_count ((msg, pos n) ∷ log) = suc (put_count log)
put_count ((msg, negsuc n) ∷ log) = put_count log

-- The bytes that read gave.
abbrev pub got_out : List Taken → List ℕ
got_out [] = []
got_out ((size, bytes, ret) ∷ log) = bytes ++ got_out log

-- Each write took its whole message, or returned -1.
abbrev pub AllWhole : List Written → Type 0
AllWhole [] = Unit {0}
AllWhole ((msg, ret) ∷ log) = ((ret ≡ pos (length msg)) ⊎ (ret ≡ negsuc 0)) × AllWhole log

-- Each read gave as many bytes as it was asked for, or returned -1 and gave none.
abbrev pub AllExact : List Taken → Type 0
AllExact [] = Unit {0}
AllExact ((size, bytes, ret) ∷ log) =
    (((ret ≡ pos size) × (length bytes ≡ size)) ⊎ ((ret ≡ negsuc 0) × (bytes ≡ []))) × AllExact log

pub put_in-append : (xs ys : List Written) → put_in (xs ++ ys) ≡ put_in xs ++ put_in ys
put_in-append [] ys = refl
put_in-append ((msg, pos n) ∷ xs) ys =
    ap (◌++◌ msg) (put_in-append xs ys) ∙ sym (append_assoc msg (put_in xs) (put_in ys))
put_in-append ((msg, negsuc n) ∷ xs) ys = put_in-append xs ys

pub put_count-append : (xs ys : List Written) → put_count (xs ++ ys) ≡ put_count xs + put_count ys
put_count-append [] ys = omega arith
put_count-append ((msg, pos n) ∷ xs) ys = omega (arith, put_count-append xs ys)
put_count-append ((msg, negsuc n) ∷ xs) ys = put_count-append xs ys

pub got_out-append : (xs ys : List Taken) → got_out (xs ++ ys) ≡ got_out xs ++ got_out ys
got_out-append [] ys = refl
got_out-append ((size, bytes, ret) ∷ xs) ys =
    ap (◌++◌ bytes) (got_out-append xs ys) ∙ sym (append_assoc bytes (got_out xs) (got_out ys))

pub AllWhole-append : (xs ys : List Written) → AllWhole xs → AllWhole ys → AllWhole (xs ++ ys)
AllWhole-append [] ys h k = k
AllWhole-append ((msg, ret) ∷ xs) ys h k = (h.0, AllWhole-append xs ys h.1 k)

pub AllExact-append : (xs ys : List Taken) → AllExact xs → AllExact ys → AllExact (xs ++ ys)
AllExact-append [] ys h k = k
AllExact-append ((size, bytes, ret) ∷ xs) ys h k = (h.0, AllExact-append xs ys h.1 k)

-- What the writing thread knows at each place. The room that its test has seen only grows.
abbrev pub Putting : ℕ → System → Putter → Type 0
Putting size core resting = core.writer ≡ idle
Putting size core (tested msg write_notify) =
    (core.writer ≡ idle) × (length msg + length core.sent ≤ size + length core.received)
Putting size core (putting msg write_notify) = (k : ℕ) × (core.writer ≡ storing msg (length msg) k)
Putting size core ringing = core.writer ≡ idle

abbrev pub Taking : System → Taker → Type 0
Taking core resting = core.reader ≡ idle
Taking core (tested size clear_notify) =
    (core.reader ≡ idle) × (size + length core.received ≤ length core.sent)
Taking core (getting size clear_notify) =
    (k : ℕ) × (got : List ℕ) × (core.reader ≡ loading size k got)
Taking core clearing = core.reader ≡ idle

-- The byte that the thread has still to give to the pipe.
abbrev pub owed : Putter → ℕ
owed resting = 0
owed (tested msg write_notify) = 0
owed (putting msg write_notify) = 0
owed ringing = 1

pub record PutInv (size : ℕ) (core : System) (putter : Putter) (written : List Written) (rung : ℕ)
    : Type 0 where
  pub place : Putting size core putter
  pub stream : core.sent ≡ put_in written
  pub whole : AllWhole written
  pub bells : owed putter + rung ≤ put_count written

pub record TakeInv (core : System) (taker : Taker) (taken : List Taken) : Type 0 where
  pub place : Taking core taker
  pub stream : core.received ≡ got_out taken
  pub exact : AllExact taken

pub record PairInv (size : ℕ) (s : Pair) : Type 0 where
  pub ring : Inv size s.core
  pub puts : PutInv size s.core s.putter s.written s.rung
  pub takes : TakeInv s.core s.taker s.taken

-- The other thread's moves keep what a thread knows.
pub PutInv-kept :
    {size : ℕ} (core core' : System) (putter : Putter) {written : List Written} {rung : ℕ}
    → core'.writer ≡ core.writer
    → core'.sent ≡ core.sent
    → length core.received ≤ length core'.received
    → PutInv size core putter written rung
    → PutInv size core' putter written rung
PutInv-kept {size} core core' putter w s more i = record {
  place = by putter i.place;
  stream = s ∙ i.stream;
  whole = i.whole;
  bells = i.bells;
}
  where
    by : (p : Putter) → Putting size core p → Putting size core' p
    by resting h = w ∙ h
    by (tested msg write_notify) h = (w ∙ h.0, omega (arith, ap length s, h.1))
    by (putting msg write_notify) h = (h.0, w ∙ h.1)
    by ringing h = w ∙ h

pub TakeInv-kept :
    (core core' : System) (taker : Taker) {taken : List Taken}
    → core'.reader ≡ core.reader
    → core'.received ≡ core.received
    → length core.sent ≤ length core'.sent
    → TakeInv core taker taken
    → TakeInv core' taker taken
TakeInv-kept core core' taker d s more i = record {
  place = by taker i.place;
  stream = s ∙ i.stream;
  exact = i.exact;
}
  where
    by : (t : Taker) → Taking core t → Taking core' t
    by resting h = d ∙ h
    by (tested size clear_notify) h = (d ∙ h.0, omega (arith, ap length s, h.1))
    by (getting size clear_notify) h = (h.0, h.1, d ∙ h.2)
    by clearing h = d ∙ h
