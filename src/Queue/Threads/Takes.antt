-- ===== src/Queue/Threads/Takes.antt =====
-- The steps of the reading thread.
use ig_libs.Base.{
  ℕ, suc, ◌+◌, ◌≤◌, ◌≡◌, inl, inr, refl, sym, ap, subst, ◌∙◌, arith, pos, negsuc, Bool, false,
  Bool-cases, ltb, ◌==◌, ==_iff, some, List, [], ◌∷◌, ◌++◌, append-nil, length, length-append,
  length-take,
}
use ig_libs.Ring.{RingBuffer}
use ig_libs.Ring.Shared.{Reader, System, idle, loading, read_start, read_next}
use ig_libs.Ring.Shared.Invariant.{Reading}
use ig_libs.Ring.Shared.Safety.{Inv}
use ig_libs.Ring.Shared.Shape.{LoadedOn, read_next-LoadedOn, read_start-all}
use ig_libs.Queue.{SharedQueue, get_readable_size}
use ig_libs.Queue.Laws.{HoldsQueue, get_readable_size_lem}
use ig_libs.Queue.Threads.{
  Taker, resting, tested, getting, clearing, Taken, read_called, read_moved,
}
use ig_libs.Queue.Threads.Whole.{
  got_out, AllExact, got_out-append, AllExact-append, Taking, TakeInv,
}

-- Calls that are settled are added to the log.
TakeInv-logged :
    (core core' : System) (taker taker' : Taker) (taken log : List Taken)
    → TakeInv core taker taken
    → Taking core' taker'
    → core'.received ≡ core.received ++ got_out log
    → AllExact log
    → TakeInv core' taker' (taken ++ log)
TakeInv-logged core core' taker taker' taken log i at s x = record {
  place = at;
  stream = s ∙ ap (λ xs. xs ++ got_out log) i.stream ∙ sym (got_out-append taken log);
  exact = AllExact-append taken log i.exact x;
}

nil_of_length : (xs : List ℕ) → length xs ≡ 0 → xs ≡ []
nil_of_length [] e = refl
nil_of_length (x ∷ xs) e = absurd (omega arith)

pub read_called-TakeInv :
    {size : ℕ} (q : SharedQueue) (core : System) (taken : List Taken) (wanted : ℕ)
    (clear_notify : Bool)
    → q.m_ring_buffer ≡ core.ring
    → Inv size core
    → TakeInv core resting taken
    → TakeInv core
        (read_called q wanted clear_notify).0
        (taken ++ (read_called q wanted clear_notify).1)
read_called-TakeInv q core taken wanted clear_notify e v i =
    elim (Bool-cases (ltb (get_readable_size q) wanted)) [
      | inl few ↦ rw few (
          TakeInv-logged core core resting resting taken ((wanted, [], negsuc 0) ∷ []) i i.place
            (sym (append-nil core.received)) (inr (refl, refl), tt))
      | inr enough ↦ rw enough (
          TakeInv-logged core core resting (tested wanted clear_notify) taken [] i
            (i.place, there enough) (sym (append-nil core.received)) tt)
    ]
  where
    holds : HoldsQueue q q.read_fd q.write_fd v.queue
    holds = record { ring = rw e (v.holds); reader = refl; writer = refl }

    there :
        ltb (get_readable_size q) wanted ≡ false → wanted + length core.received ≤ length core.sent
    there enough =
        let held : wanted ≤ get_readable_size q = ground arith in
        omega (
          arith,
          held,
          get_readable_size_lem holds,
          ap length v.history,
          length-append core.received v.queue,
        )

pub read_enters-TakeInv :
    {size : ℕ} (core : System) (taken : List Taken) (wanted : ℕ) (clear_notify : Bool)
    → Inv size core
    → TakeInv core (tested wanted clear_notify) taken
    → TakeInv
        (record core { reader = read_start core.ring wanted })
        (getting wanted clear_notify)
        taken
read_enters-TakeInv core taken wanted clear_notify v i = record {
  place = (
    0,
    [],
    read_start-all wanted v.holds
        (omega (arith, i.place.1, ap length v.history, length-append core.received v.queue)),
  );
  stream = i.stream;
  exact = i.exact;
}

pub read_moves-TakeInv :
    {size : ℕ} (core : System) (taken : List Taken) (wanted : ℕ) (clear_notify : Bool)
    (r : RingBuffer) (d : Reader) (bytes : List ℕ)
    → Inv size core
    → read_next core.ring core.reader ≡ some (r, d, bytes)
    → TakeInv core (getting wanted clear_notify) taken
    → TakeInv
        (record core { ring = r; reader = d; received = core.received ++ bytes })
        (read_moved wanted clear_notify d bytes).0
        (taken ++ (read_moved wanted clear_notify d bytes).1)
read_moves-TakeInv core taken wanted clear_notify r d bytes v e i = by d (
    read_next-LoadedOn core.ring wanted (i.place.0) (i.place.1)
      (subst (λ x. read_next core.ring x ≡ some (r, d, bytes)) (i.place.2) e))
  where
    core' : Reader → System
    core' d = record core { ring = r; reader = d; received = core.received ++ bytes }

    front : Reading v.queue (loading wanted (i.place.0) (i.place.1))
    front = subst (Reading v.queue) (i.place.2) v.reading

    whole : bytes ≡ i.place.1 → wanted ≤ i.place.0 → length bytes ≡ wanted
    whole all far =
        omega (
          arith,
          ap length all,
          ap length front.2,
          length-take (i.place.0) v.queue,
          front.0,
          front.1,
        )

    log : List Taken
    log = (wanted, bytes, pos (length bytes)) ∷ []

    exact : bytes ≡ i.place.1 → wanted ≤ i.place.0 → AllExact log
    exact all far = (inl (ap pos (whole all far), whole all far), tt)

    stream : core.received ++ bytes ≡ core.received ++ (bytes ++ [])
    stream = ap (λ b. core.received ++ b) (sym (append-nil bytes))

    by :
        (d : Reader)
        → LoadedOn wanted (i.place.0) (i.place.1) d bytes
        → TakeInv
            (core' d)
            (read_moved wanted clear_notify d bytes).0
            (taken ++ (read_moved wanted clear_notify d bytes).1)
    by idle (inl (got', at, none_given)) = absurd (cc)
    by (loading len k got) (inl (got', at, none_given)) =
        TakeInv-logged core (core' (loading len k got)) (getting wanted clear_notify)
          (getting wanted clear_notify) taken [] i (suc (i.place.0), got', at)
          (ap (λ b. core.received ++ b) none_given) tt
    by (loading len k got) (inr (at, all, far)) = absurd (cc)
    by idle (inr (at, all, far)) = elim (Bool-cases (length bytes == 0)) [
      | inl empty ↦ rw empty (
          TakeInv-logged core (core' idle) (getting wanted clear_notify) resting taken
            ((wanted, [], negsuc 0) ∷ []) i refl
            (ap (λ b. core.received ++ b) (nil_of_length bytes ((==_iff (length bytes) 0).0 empty)))
            (inr (refl, refl), tt))
      | inr given ↦ rw given (elim (Bool-cases clear_notify) [
        | inl clears ↦ rw clears (
            TakeInv-logged core (core' idle) (getting wanted clear_notify) clearing taken log i refl
              stream (exact all far))
        | inr leaves ↦ rw leaves (
            TakeInv-logged core (core' idle) (getting wanted clear_notify) resting taken log i refl
              stream (exact all far))
      ])
    ]
