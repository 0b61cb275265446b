-- ===== src/Queue/Threads/Frames.antt =====
-- Messages of one length, under every interleaving of the two threads.
use ig_libs.Base.{
  ℕ, ◌<◌, ◌≡◌, inl, inr, refl, sym, ap, ap₂, ◌∙◌, arith, pos, negsuc, List, [], ◌∷◌, ◌++◌,
  append_assoc, length, length-append, take, drop,
}
use ig_libs.Base.Tabulate.{take-append_self, drop-append_self}
use ig_libs.Ring.Holds.{Holds}
use ig_libs.Queue.{SharedQueue}
use ig_libs.Queue.Threads.{Written, Taken, Pair, Reach}
use ig_libs.Queue.Threads.Whole.{put_in, got_out, AllExact}
use ig_libs.Queue.Threads.Safety.{queue_threads_safe}

-- The messages that write took.
abbrev pub messages : List Written → List (List ℕ)
messages [] = []
messages ((msg, pos n) ∷ log) = msg ∷ messages log
messages ((msg, negsuc n) ∷ log) = messages log

-- What the reads that gave something gave.
abbrev pub parts : List Taken → List (List ℕ)
parts [] = []
parts ((size, bytes, pos n) ∷ log) = bytes ∷ parts log
parts ((size, bytes, negsuc n) ∷ log) = parts log

abbrev joined : List (List ℕ) → List ℕ
joined [] = []
joined (xs ∷ xss) = xs ++ joined xss

-- Each message, or what each read asks for, has `k` bytes.
abbrev pub AllMessages : ℕ → List Written → Type 0
AllMessages k [] = Unit {0}
AllMessages k ((msg, ret) ∷ log) = (length msg ≡ k) × AllMessages k log

abbrev pub AllSizes : ℕ → List Taken → Type 0
AllSizes k [] = Unit {0}
AllSizes k ((size, bytes, ret) ∷ log) = (size ≡ k) × AllSizes k log

abbrev AllLong : ℕ → List (List ℕ) → Type 0
AllLong k [] = Unit {0}
AllLong k (xs ∷ xss) = (length xs ≡ k) × AllLong k xss

put_in-joined : (log : List Written) → put_in log ≡ joined (messages log)
put_in-joined [] = refl
put_in-joined ((msg, pos n) ∷ log) = ap (◌++◌ msg) (put_in-joined log)
put_in-joined ((msg, negsuc n) ∷ log) = put_in-joined log

messages-AllLong : (k : ℕ) (log : List Written) → AllMessages k log → AllLong k (messages log)
messages-AllLong k [] h = tt
messages-AllLong k ((msg, pos n) ∷ log) h = (h.0, messages-AllLong k log h.1)
messages-AllLong k ((msg, negsuc n) ∷ log) h = messages-AllLong k log h.1

got_out-joined : (log : List Taken) → AllExact log → got_out log ≡ joined (parts log)
got_out-joined [] h = refl
got_out-joined ((size, bytes, pos n) ∷ log) h = ap (◌++◌ bytes) (got_out-joined log h.1)
got_out-joined ((size, bytes, negsuc n) ∷ log) (inl (e, l), h) = absurd (cc)
got_out-joined ((size, bytes, negsuc n) ∷ log) (inr (e, l), h) = rw l (got_out-joined log h)

parts-AllLong : (k : ℕ) (log : List Taken) → AllExact log → AllSizes k log → AllLong k (parts log)
parts-AllLong k [] h s = tt
parts-AllLong k ((size, bytes, pos n) ∷ log) (inl (e, l), h) s =
    (l ∙ s.0, parts-AllLong k log h s.1)
parts-AllLong k ((size, bytes, pos n) ∷ log) (inr (e, l), h) s = absurd (cc)
parts-AllLong k ((size, bytes, negsuc n) ∷ log) h s = parts-AllLong k log h.1 s.1

-- Lists of one length that start the same text are the same one by one.
front_joined :
    (k : ℕ) (xss yss : List (List ℕ)) (rest : List ℕ)
    → 0 < k
    → AllLong k xss
    → AllLong k yss
    → joined xss ≡ joined yss ++ rest
    → (zss : List (List ℕ)) × (xss ≡ yss ++ zss)
front_joined k xss [] rest p a b e = (xss, refl)
front_joined k [] (ys ∷ yss) rest p a b e = absurd (
    omega (
      arith,
      ap length e,
      length-append (ys ++ joined yss) rest,
      length-append ys (joined yss),
      b.0,
    ))
front_joined k (xs ∷ xss) (ys ∷ yss) rest p a b e =
    let (zss, z) = front_joined k xss yss rest p a.1 b.1 behind in (zss, ap₂ ◌∷◌ first z)
  where
    e' : xs ++ joined xss ≡ ys ++ (joined yss ++ rest)
    e' = e ∙ append_assoc ys (joined yss) rest

    one_length : length xs ≡ length ys
    one_length = a.0 ∙ sym b.0

    first : xs ≡ ys
    first =
        sym (take-append_self xs (joined xss))
        ∙ ap₂ take one_length e'
        ∙ take-append_self ys (joined yss ++ rest)

    behind : joined xss ≡ joined yss ++ rest
    behind =
        sym (drop-append_self xs (joined xss))
        ∙ ap₂ drop one_length e'
        ∙ drop-append_self ys (joined yss ++ rest)

-- Let a queue be empty, and let one thread call write with messages of one length above 0, and another read with this length, their accesses in any
-- order. At any point the reads that gave something gave the messages that write took, one message to a read, in their order, from the first
-- one on.
pub queue_threads_frames :
    {q : SharedQueue} {s : Pair} (k : ℕ)
    → Holds q.m_ring_buffer []
    → Reach q s
    → 0 < k
    → AllMessages k s.written
    → AllSizes k s.taken
    → (left : List (List ℕ)) × (messages s.written ≡ parts s.taken ++ left)
queue_threads_frames {q} {s} k v reach p m z =
    let (whole, exact, (rest, e, few), bells, writer_runs, reader_runs) =
      queue_threads_safe v reach in
    front_joined k (messages s.written) (parts s.taken) rest p (messages-AllLong k s.written m)
      (parts-AllLong k s.taken exact z)
      (sym (put_in-joined s.written) ∙ e ∙ ap (λ xs. xs ++ rest) (got_out-joined s.taken exact))
