-- ===== src/Ring/Freed.antt =====
-- A ring after ring_buffer_free: NULL memory, but the old capacity.
use ig_libs.Base.{
  ℕ, ◌≤◌, ◌<◌, min, ◌≡◌, refl, arith, none, List, [], ◌∷◌, length, take, length-take,
}
use ig_libs.Base.Bits.{zero-bit_and}
use ig_libs.Base.Words.{add64, sub64}
use ig_libs.Ring.{
  RingBuffer, ring_buffer_free, ring_buffer_reset, ring_buffer_write, ring_buffer_readable_size,
  store_bytes,
}
use ig_libs.Ring.Memory.{load_bytes_lem}
use ig_libs.Ring.Holds.{Holds, size_bound, size_pos}

store_null : (off : ℕ) (xs : List ℕ) → 0 < length xs → store_bytes none off xs ≡ none
unfolding store_bytes
store_null off [] h = absurd (omega arith)
store_null off (x ∷ xs) h = refl

module _ {r : RingBuffer} {q : List ℕ} (v : Holds r q) where
  to_end : sub64 r.m_size 0 ≡ r.m_size
  unfolding sub64
  to_end = omega (arith, size_bound v, size_pos v)

  space : add64 (sub64 r.m_size 0) 0 ≡ r.m_size
  unfolding sub64 add64
  space = omega (arith, size_bound v, size_pos v)

module _ {r : RingBuffer} {q : List ℕ} (v : Holds r q) where
  pub readable-free : ring_buffer_readable_size (ring_buffer_free r) ≡ 0
  unfolding ring_buffer_readable_size ring_buffer_free ring_buffer_reset sub64
  readable-free = refl

  pub size-free : (ring_buffer_free r).m_size ≡ r.m_size
  unfolding ring_buffer_free ring_buffer_reset
  size-free = refl

  pub write-free :
      (src : List ℕ) (wanted : ℕ)
      → 0 < wanted
      → wanted ≤ length src
      → ring_buffer_write (ring_buffer_free r) src wanted ≡ none
  unfolding ring_buffer_write ring_buffer_free ring_buffer_reset
  write-free src wanted p h = rw (
    space v,
    zero-bit_and (sub64 r.m_size 1),
    to_end v,
    load_bytes_lem src 0 (min (min wanted r.m_size) r.m_size) (omega arith),
    store_null 0 (take (min (min wanted r.m_size) r.m_size) src) some_bytes,
  )
    where
      some_bytes : 0 < length (take (min (min wanted r.m_size) r.m_size) src)
      some_bytes = omega (arith, length-take (min (min wanted r.m_size) r.m_size) src, size_pos v)
