-- ===== src/Queue/Lifecycle.antt =====
-- shared_queue.cpp: opening and closing a queue.
use ig_libs.Base.{
  ℕ, ◌≤◌, ◌<◌, ℤ, pos, negsuc, ◌≡◌, ◌⊎◌, inl, inr, refl, sym, ◌∙◌, subst, arith, Bool, false,
  Option, none, some, List, [], ◌∷◌, length, ltb-false, ◌==◌,
}
use ig_libs.Base.Words.{u64_mod, sub64, sub64_of_le}
use ig_libs.Ring.{RingBuffer, Allocator, GivesSize, set_shared}
use ig_libs.Ring.Holds.{size_bound, size_pos}
use ig_libs.Ring.Alloc.{Capacity, AllocResult, ring_buffer_alloc_result}
use ig_libs.Ring.Freed.{readable-free, size-free, write-free}
use ig_libs.Queue.{
  SharedQueue, SysCall, close_fd, get_size, get_readable_size, get_writeable_size, write, init,
  init_ring, init_piped, uninit, close_both, reset_fd,
}
use ig_libs.Queue.Laws.{HoldsQueue}

abbrev pub IsClosed : SharedQueue → Type 0
IsClosed s = (s.read_fd ≡ negsuc 0) × (s.write_fd ≡ negsuc 0)

-- What `init` may answer, by what `pipe2` answered.
abbrev pub InitResult : SharedQueue → Option (ℕ × ℕ) → ℕ → ℤ × SharedQueue × List SysCall → Type 0
InitResult s none size (code, t, calls) = (code ≡ negsuc 0) × (t ≡ s) × (calls ≡ [])
InitResult s (some (r, w)) size (code, t, calls) =
    ((code ≡ pos 0) × HoldsQueue t (pos r) (pos w) [] × Capacity size (get_size t) × (calls ≡ []))
    ⊎ ((code ≡ negsuc 1) × IsClosed t × (calls ≡ close_fd (pos r) ∷ close_fd (pos w) ∷ []))

init_ring-InitResult :
    (s : SharedQueue) (r w size : ℕ) (answer : ℕ × RingBuffer)
    → 0 < size
    → AllocResult size answer
    → InitResult s
        (some (r, w))
        size
        (init_ring (record s { read_fd = pos r; write_fd = pos w }) answer)
unfolding init_ring close_both reset_fd get_size
init_ring-InitResult s r w size (n, ring) p (inl (v, same, cap)) = rw (some_room n cap) (
    inl (
      refl,
      record { ring = v; reader = refl; writer = refl },
      subst (Capacity size) (sym same) cap,
      refl,
    ))
  where
    some_room : (n : ℕ) → Capacity size n → (n == 0) ≡ false
    some_room n c = ground (arith, c.over_half)
init_ring-InitResult s r w size (n, ring) p (inr (e, _)) = rw e (inr (refl, (refl, refl), refl))

-- On a closed queue, with a non-zero 64-bit size and memory of the size asked for, init() returns
-- -1 and changes nothing if there is no pipe; else it returns 0 with an empty queue of a
-- power-of-two capacity above half the size, at the pipe's ends, or it returns -2 with both ends
-- closed again and forgotten.
pub init_result :
    (a : Allocator) (piped : Option (ℕ × ℕ)) (s : SharedQueue) (size : ℕ) (shared : Bool)
    → GivesSize a
    → IsClosed s
    → 0 < size
    → size < u64_mod
    → InitResult s piped size (init a piped s size shared)
unfolding init init_piped
init_result a none s size shared g c p h = rw (c.0, c.1) (refl, refl, refl)
init_result a (some (r, w)) s size shared g c p h =
    rw (c.0, c.1)
      (init_ring-InitResult s r w size _ p
        (ring_buffer_alloc_result a (set_shared s.m_ring_buffer shared) size g p h))

-- On a valid queue, with a caller's buffer of `size` bytes or more: after uninit() it reports its whole size as free space, whatever it held, and
-- a write of a non-empty message that fits in the size is not refused: it writes through NULL.
pub write-uninit_faults :
    (s : SharedQueue) (r w : ℤ) (q buf : List ℕ) (size : ℕ) (notify : Bool)
    → HoldsQueue s r w q
    → 0 < size
    → size ≤ get_size s
    → size ≤ length buf
    → (get_writeable_size (uninit s).1 ≡ get_size s) × (write (uninit s).1 buf size notify ≡ none)
unfolding write uninit close_both reset_fd get_size get_readable_size get_writeable_size
write-uninit_faults s r w q buf size notify v p fits enough = (
  rw (readable-free v.ring, size-free v.ring) all_free,
  rw
      (
        write-free v.ring buf size p enough,
        readable-free v.ring,
        size-free v.ring,
        all_free,
        ltb-false s.m_ring_buffer.m_size size fits,
      )
      refl,
)
  where
    all_free : sub64 s.m_ring_buffer.m_size 0 ≡ s.m_ring_buffer.m_size
    all_free =
        sub64_of_le s.m_ring_buffer.m_size 0 (omega arith)
          (omega (arith, size_bound v.ring, size_pos v.ring))
        ∙ omega arith
