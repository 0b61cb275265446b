-- ===== src/Queue/Laws.antt =====
-- shared_queue.cpp: what a message queue over a valid ring does.
use ig_libs.Base.{
  ℕ, ◌-◌, ◌≤◌, ◌<◌, min, ℤ, pos, negsuc, ◌≡◌, ◌⊎◌, inl, inr, refl, ap, ◌∙◌, subst, arith, Bool,
  true, false, Option, some, List, [], ◌∷◌, ◌++◌, append-nil, length, take, drop, if◌then◌else◌,
  ◌==◌, lt→ltb, ltb-false,
}
use ig_libs.Base.Words.{u64_mod, sub64, sub64_of_le}
use ig_libs.Ring.{RingBuffer, ring_buffer_write, ring_buffer_read}
use ig_libs.Ring.Holds.{Holds, size_bound, ring_buffer_readable_size_lem}
use ig_libs.Ring.Write.{ring_buffer_write_refines}
use ig_libs.Ring.Read.{ring_buffer_read_refines}
use ig_libs.Queue.{
  SharedQueue, SysCall, read_byte, write_byte, get_size, get_readable_size, get_writeable_size,
  read, write,
}

-- The queue holds the bytes `q`, and its pipe ends are the two descriptors.
pub record HoldsQueue (s : SharedQueue) (r w : ℤ) (q : List ℕ) : Type 0 where
  pub ring : Holds s.m_ring_buffer q
  pub reader : s.read_fd ≡ r
  pub writer : s.write_fd ≡ w

module _ {s : SharedQueue} {r w : ℤ} {q : List ℕ} (v : HoldsQueue s r w q) where
  pub get_readable_size_lem : get_readable_size s ≡ length q
  unfolding get_readable_size
  get_readable_size_lem = ring_buffer_readable_size_lem v.ring

  pub get_writeable_size_lem : get_writeable_size s ≡ get_size s - length q
  unfolding get_writeable_size get_size get_readable_size
  get_writeable_size_lem =
      ap (sub64 s.m_ring_buffer.m_size) (ring_buffer_readable_size_lem v.ring)
      ∙ sub64_of_le s.m_ring_buffer.m_size (length q) v.ring.fits
          (omega (arith, size_bound v.ring, v.ring.narrow, positive))
    where
      positive : 0 < u64_mod
      positive = omega arith

-- The bell that a call rings on a pipe end.
abbrev pub rings : Bool → SysCall → List SysCall
rings flag c = if flag then c ∷ [] else []

-- A write puts the whole message or nothing.
abbrev pub WriteResult :
    SharedQueue
    → ℤ
    → ℤ
    → List ℕ
    → List ℕ
    → ℕ
    → Bool
    → Option (ℤ × SharedQueue × List SysCall)
    → Type 0
WriteResult s r w q buf size notify out =
    ((0 < size)
      × (size ≤ get_size s - length q)
      × ((t : SharedQueue) × (out ≡ some (pos size, t, rings notify (write_byte w)))
          × HoldsQueue t r w (q ++ take size buf)
          × (get_size t ≡ get_size s)))
    ⊎ (((size ≡ 0) ⊎ (get_size s - length q < size))
        × ((t : SharedQueue) × (out ≡ some (negsuc 0, t, []))
            × HoldsQueue t r w q
            × (get_size t ≡ get_size s)))

-- A transfer that the guard lets through is whole.
write_whole :
    {r : RingBuffer} {q : List ℕ} (src : List ℕ) (n : ℕ)
    → Holds r q
    → n ≤ length src
    → n ≤ r.m_size - length q
    → (r' : RingBuffer) × (ring_buffer_write r src n ≡ some (n, r'))
      × Holds r' (q ++ take n src)
      × (r'.m_size ≡ r.m_size)
write_whole {r} {q} src n v enough fits =
    let all : min n (r.m_size - length q) ≡ n = omega arith in
    let (r', ran, v', size) = ring_buffer_write_refines src n v enough in
    (r', ran ∙ ap (λ k. some (k, r')) all, subst (λ k. Holds r' (q ++ take k src)) all v', size)

read_whole :
    {r : RingBuffer} {q : List ℕ} (n : ℕ)
    → Holds r q
    → n ≤ length q
    → (r' : RingBuffer) × (ring_buffer_read r n ≡ some (n, take n q, r'))
      × Holds r' (drop n q)
      × (r'.m_size ≡ r.m_size)
read_whole {r} {q} n v fits =
    let all : min n (length q) ≡ n = omega arith in
    let (r', ran, v', size) = ring_buffer_read_refines n v in
    (r', ran ∙ ap (λ k. some (k, take k q, r')) all, subst (λ k. Holds r' (drop k q)) all v', size)

le_or_lt : (x y : ℕ) → (x ≤ y) ⊎ (y < x)
le_or_lt x y = omega arith

zero_or_pos : (n : ℕ) → (n ≡ 0) ⊎ (0 < n)
zero_or_pos n = omega arith

zero_test : (n : ℕ) → n ≡ 0 → (n == 0) ≡ true
zero_test n h = ground arith

pos_test : (n : ℕ) → 0 < n → (n == 0) ≡ false
pos_test n h = ground arith

-- On a valid queue, with a caller's buffer of `size` bytes or more:
-- SharedQueue::write takes a message of `size` bytes whole, after all that is queued, and rings
-- the write end once if it was told to; it returns -1, queues nothing and rings nothing exactly
-- where the size is 0 or above the free space. It never faults on a valid queue.
pub write_result :
    (s : SharedQueue) (r w : ℤ) (q buf : List ℕ) (size : ℕ) (notify : Bool)
    → HoldsQueue s r w q
    → size ≤ length buf
    → WriteResult s r w q buf size notify (write s buf size notify)
unfolding write get_size
write_result s r w q buf size notify v enough =
    elim (le_or_lt size (s.m_ring_buffer.m_size - length q)) [
      | inr full ↦
          rw (space, lt→ltb (s.m_ring_buffer.m_size - length q) size full)
            (inr (inr full, (s, refl, v, refl)))
      | inl fits ↦
          let (ring, ran, ring_v, same) = write_whole buf size v.ring enough fits in
          rw (space, ltb-false (s.m_ring_buffer.m_size - length q) size fits, ran)
            (elim (zero_or_pos size) [
              | inl none_asked ↦ inr (
                inl none_asked,
                (
                  record s { m_ring_buffer = ring },
                  rw (zero_test size none_asked) refl,
                  record {
                    ring =
                        subst (Holds ring) (ap (λ n. q ++ take n buf) none_asked ∙ append-nil q)
                          ring_v;
                    reader = v.reader;
                    writer = v.writer;
                  },
                  same,
                ),
              )
              | inr some_asked ↦ inl (
                some_asked,
                fits,
                (
                  record s { m_ring_buffer = ring },
                  rw (pos_test size some_asked, v.writer) refl,
                  record { ring = ring_v; reader = v.reader; writer = v.writer },
                  same,
                ),
              )
            ])
    ]
  where
    space : get_writeable_size s ≡ s.m_ring_buffer.m_size - length q
    space = get_writeable_size_lem v

-- A read takes a whole message or nothing.
abbrev pub ReadResult :
    SharedQueue
    → ℤ
    → ℤ
    → List ℕ
    → ℕ
    → Bool
    → Option (ℤ × List ℕ × SharedQueue × List SysCall)
    → Type 0
ReadResult s r w q size clear out =
    ((0 < size)
      × (size ≤ length q)
      × ((t : SharedQueue) × (out ≡ some (pos size, take size q, t, rings clear (read_byte r)))
          × HoldsQueue t r w (drop size q)
          × (get_size t ≡ get_size s)))
    ⊎ (((size ≡ 0) ⊎ (length q < size))
        × ((t : SharedQueue) × (out ≡ some (negsuc 0, [], t, []))
            × HoldsQueue t r w q
            × (get_size t ≡ get_size s)))

-- SharedQueue::read gives the oldest `size` bytes and takes them off, and clears one byte from the
-- read end if it was told to; it returns -1 and changes nothing that is queued exactly where the
-- size is 0 or above the bytes queued. It never faults on a valid queue.
pub read_result :
    (s : SharedQueue) (r w : ℤ) (q : List ℕ) (size : ℕ) (clear : Bool)
    → HoldsQueue s r w q
    → ReadResult s r w q size clear (read s size clear)
unfolding read get_size
read_result s r w q size clear v = elim (le_or_lt size (length q)) [
  | inr short ↦
      rw (get_readable_size_lem v, lt→ltb (length q) size short)
        (inr (inr short, (s, refl, v, refl)))
  | inl fits ↦
      let (ring, ran, ring_v, same) = read_whole size v.ring fits in
      rw (get_readable_size_lem v, ltb-false (length q) size fits, ran)
        (elim (zero_or_pos size) [
          | inl none_asked ↦ inr (
            inl none_asked,
            (
              record s { m_ring_buffer = ring },
              rw (zero_test size none_asked) (
                  ap (λ n. some (negsuc 0, take n q, record s { m_ring_buffer = ring }, []))
                    none_asked),
              record {
                ring = subst (Holds ring) (ap (λ n. drop n q) none_asked) ring_v;
                reader = v.reader;
                writer = v.writer;
              },
              same,
            ),
          )
          | inr some_asked ↦ inl (
            some_asked,
            fits,
            (
              record s { m_ring_buffer = ring },
              rw (pos_test size some_asked, v.reader) refl,
              record { ring = ring_v; reader = v.reader; writer = v.writer },
              same,
            ),
          )
        ])
]
