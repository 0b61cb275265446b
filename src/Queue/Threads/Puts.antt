-- ===== src/Queue/Threads/Puts.antt =====
-- The steps of the writing thread.
use ig_libs.Base.{
  ℕ, suc, ◌+◌, ◌≤◌, ◌≡◌, ◌⊎◌, inl, inr, refl, sym, ap, subst, ◌∙◌, arith, pos, negsuc, Bool, false,
  Bool-cases, ltb, ◌==◌, ==_iff, some, List, [], ◌∷◌, ◌++◌, append-nil, length, length-append, take,
}
use ig_libs.Base.Tabulate.{take-append_self}
use ig_libs.Ring.{RingBuffer}
use ig_libs.Ring.Shared.{Writer, System, idle, storing, write_start, write_next}
use ig_libs.Ring.Shared.Safety.{Inv}
use ig_libs.Ring.Shared.Shape.{StoredOn, write_next-StoredOn, write_start-all}
use ig_libs.Queue.{SharedQueue, get_size, get_writeable_size}
use ig_libs.Queue.Laws.{HoldsQueue, get_writeable_size_lem}
use ig_libs.Queue.Threads.{
  Putter, resting, tested, putting, ringing, Written, write_called, write_moved,
}
use ig_libs.Queue.Threads.Whole.{
  put_in, put_count, AllWhole, put_in-append, put_count-append, AllWhole-append, Putting, owed,
  PutInv,
}

-- Calls that are settled are added to the log.
PutInv-logged :
    {size : ℕ} (core core' : System) (putter putter' : Putter) (written log : List Written)
    (rung : ℕ)
    → PutInv size core putter written rung
    → Putting size core' putter'
    → core'.sent ≡ core.sent ++ put_in log
    → AllWhole log
    → owed putter' ≤ put_count log
    → PutInv size core' putter' (written ++ log) rung
PutInv-logged core core' putter putter' written log rung i at s w b = record {
  place = at;
  stream = s ∙ ap (λ xs. xs ++ put_in log) i.stream ∙ sym (put_in-append written log);
  whole = AllWhole-append written log i.whole w;
  bells = omega (arith, i.bells, b, put_count-append written log);
}

nil_of_length : (xs : List ℕ) → length xs ≡ 0 → xs ≡ []
nil_of_length [] e = refl
nil_of_length (x ∷ xs) e = absurd (omega arith)

take_all : (xs : List ℕ) → take (length xs) xs ≡ xs
take_all xs = subst (λ ys. take (length xs) ys ≡ xs) (append-nil xs) (take-append_self xs [])

pub write_called-PutInv :
    {size : ℕ} (q : SharedQueue) (core : System) (written : List Written) (rung : ℕ) (msg : List ℕ)
    (write_notify : Bool)
    → q.m_ring_buffer ≡ core.ring
    → Inv size core
    → PutInv size core resting written rung
    → PutInv size core
        (write_called q msg write_notify).0
        (written ++ (write_called q msg write_notify).1)
        rung
unfolding get_size
write_called-PutInv {size} q core written rung msg write_notify e v i =
    elim (Bool-cases (ltb (get_writeable_size q) (length msg))) [
      | inl full ↦ rw full (
          PutInv-logged core core resting resting written ((msg, negsuc 0) ∷ []) rung i i.place
            (sym (append-nil core.sent)) (inr refl, tt) (omega arith))
      | inr fits ↦ rw fits (
          PutInv-logged core core resting (tested msg write_notify) written [] rung i
            (i.place, room fits) (sym (append-nil core.sent)) tt (omega arith))
    ]
  where
    holds : HoldsQueue q q.read_fd q.write_fd v.queue
    holds = record { ring = rw e (v.holds); reader = refl; writer = refl }

    room :
        ltb (get_writeable_size q) (length msg) ≡ false
        → length msg + length core.sent ≤ size + length core.received
    room fits =
        let enough : length msg ≤ get_writeable_size q = ground arith in
        omega (
          arith,
          enough,
          get_writeable_size_lem holds,
          ap (λ r. r.m_size) e,
          v.kept,
          v.holds.fits,
          ap length v.history,
          length-append core.received v.queue,
        )

pub write_enters-PutInv :
    {size : ℕ} (core : System) (written : List Written) (rung : ℕ) (msg : List ℕ)
    (write_notify : Bool)
    → Inv size core
    → PutInv size core (tested msg write_notify) written rung
    → PutInv size
        (record core { writer = write_start core.ring msg (length msg) })
        (putting msg write_notify)
        written
        rung
write_enters-PutInv core written rung msg write_notify v i = record {
  place = (
    0,
    write_start-all msg v.holds (
        omega (arith, i.place.1, ap length v.history, length-append core.received v.queue, v.kept)),
  );
  stream = i.stream;
  whole = i.whole;
  bells = i.bells;
}

pub write_moves-PutInv :
    {size : ℕ} (core : System) (written : List Written) (rung : ℕ) (msg : List ℕ)
    (write_notify : Bool) (r : RingBuffer) (w : Writer) (bytes : List ℕ)
    → write_next core.ring core.writer ≡ some (r, w, bytes)
    → PutInv size core (putting msg write_notify) written rung
    → PutInv size
        (record core { ring = r; writer = w; sent = core.sent ++ bytes })
        (write_moved msg write_notify w bytes).0
        (written ++ (write_moved msg write_notify w bytes).1)
        rung
write_moves-PutInv {size} core written rung msg write_notify r w bytes e i = by w (
    write_next-StoredOn core.ring msg (length msg) (i.place.0)
      (subst (λ x. write_next core.ring x ≡ some (r, w, bytes)) (i.place.1) e))
  where
    core' : Writer → System
    core' w = record core { ring = r; writer = w; sent = core.sent ++ bytes }

    log : List Written
    log = (msg, pos (length bytes)) ∷ []

    stream : bytes ≡ take (length msg) msg → core.sent ++ bytes ≡ core.sent ++ (msg ++ [])
    stream all = ap (λ b. core.sent ++ b) (all ∙ take_all msg ∙ sym (append-nil msg))

    whole :
        bytes ≡ take (length msg) msg
        → (pos (length bytes) ≡ pos (length msg)) ⊎ (pos (length bytes) ≡ negsuc 0)
    whole all = inl (ap pos (ap length (all ∙ take_all msg)))

    by :
        (w : Writer)
        → StoredOn msg (length msg) (i.place.0) w bytes
        → PutInv size
            (core' w)
            (write_moved msg write_notify w bytes).0
            (written ++ (write_moved msg write_notify w bytes).1)
            rung
    by idle (inl (at, none_sent)) = absurd (cc)
    by (storing buffer len k) (inl (at, none_sent)) =
        PutInv-logged core (core' (storing buffer len k)) (putting msg write_notify)
          (putting msg write_notify) written [] rung i (suc (i.place.0), at)
          (ap (λ b. core.sent ++ b) none_sent) tt (omega arith)
    by (storing buffer len k) (inr (at, all)) = absurd (cc)
    by idle (inr (at, all)) = elim (Bool-cases (length bytes == 0)) [
      | inl empty ↦ rw empty (
          PutInv-logged core (core' idle) (putting msg write_notify) resting written
            ((msg, negsuc 0) ∷ []) rung i refl
            (ap (λ b. core.sent ++ b) (nil_of_length bytes ((==_iff (length bytes) 0).0 empty)))
            (inr refl, tt) (omega arith))
      | inr sent ↦ rw sent (elim (Bool-cases write_notify) [
        | inl rings ↦ rw rings (
            PutInv-logged core (core' idle) (putting msg write_notify) ringing written log rung i
              refl (stream all) (whole all, tt) (omega arith))
        | inr silent ↦ rw silent (
            PutInv-logged core (core' idle) (putting msg write_notify) resting written log rung i
              refl (stream all) (whole all, tt) (omega arith))
      ])
    ]
