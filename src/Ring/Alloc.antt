-- ===== src/Ring/Alloc.antt =====
-- RingBuffer::ring_buffer_alloc and ring_buffer_free: the memory, the capacity and the state left.
use native.Mathlib.Nat.{pow-le-pow_right}
use native.Mathlib.Decide.{dec_lt}
use ig_libs.Base.{
  ℕ, ◌*◌, ◌^◌, ◌≤◌, ◌<◌, ◌≡◌, refl, ◌⊎◌, inl, inr, arith, Bool, true, false, Option, some, none,
  List, [], length, Bool-cases, if◌then◌else◌, ◌==◌, not, ◌&&◌,
}
use ig_libs.Base.Tabulate.{tabulate}
use ig_libs.Base.Words.{u64_mod}
use ig_libs.Utils.{is_power_of_2}
use ig_libs.Utils.PowerOfTwo.{IsPow, is_power_of_2_iff, roundup_pow_of_two_bounds}
use ig_libs.Ring.{
  RingBuffer, Allocator, GivesSize, alloc_size, alloc_with, ring_buffer_alloc, ring_buffer_reset,
}
use ig_libs.Ring.Holds.{Holds}

-- The capacity is a power of two, at most what was asked for and more than half of it.
pub record Capacity (size n : ℕ) : Type 0 where
  pub is_pow : IsPow n
  pub at_most : n ≤ size
  pub over_half : size < 2 * n

alloc_size-Capacity : (size : ℕ) → 0 < size → size < u64_mod → Capacity size (alloc_size size)
unfolding alloc_size
alloc_size-Capacity size p h = elim (Bool-cases (is_power_of_2 size)) [
  | inl pow ↦ rw pow (record {
    is_pow = (is_power_of_2_iff size h).0 pow;
    at_most = omega arith;
    over_half = omega arith;
  })
  | inr other ↦
      let b = roundup_pow_of_two_bounds size p h in
      rw other (record { is_pow = b.0; at_most = b.1; over_half = b.2 })
]

width_narrow : (n k : ℕ) → n ≡ 2 ^ k → n < u64_mod → k < 64
width_narrow n k e h = elim (dec_lt k 64) [
  | yes low ↦ low
  | no high ↦
      absurd (omega (arith, pow-le-pow_right {n = 2} (omega arith) {i = 64} {j = k} (omega arith)))
]

-- Every answer of the memory call: a granted block makes an empty ring of its capacity.
abbrev pub AllocResult : ℕ → ℕ × RingBuffer → Type 0
AllocResult size (n, r) =
    (Holds r [] × (r.m_size ≡ n) × Capacity size n) ⊎ ((n ≡ 0) × (r.m_buffer ≡ none))

alloc_with-AllocResult :
    (r : RingBuffer) (size n : ℕ) (memory : Option (List ℕ))
    → size < u64_mod
    → Capacity size n
    → ((b : List ℕ) → memory ≡ some b → length b ≡ n)
    → AllocResult size (alloc_with r n memory)
unfolding alloc_with ring_buffer_reset tabulate
alloc_with-AllocResult r size n none h c given = inr (refl, refl)
alloc_with-AllocResult r size n (some b) h c given = inl (
  record {
    storage = b;
    held = refl;
    sized = given b refl;
    width = c.is_pow.0;
    pow = c.is_pow.1;
    narrow = width_narrow n c.is_pow.0 c.is_pow.1 (omega (arith, c.at_most));
    out_small = omega arith;
    used = refl;
    fits = omega arith;
    bytes = refl;
  },
  refl,
  c,
)

-- For a non-zero 64-bit size and a memory system that grants blocks of the size asked for,
-- `ring_buffer_alloc` either returns the capacity of a ring that now holds the empty queue,
-- which is a power of two not above the size and above its half, or returns 0 with `m_buffer` NULL.
pub ring_buffer_alloc_result :
    (a : Allocator) (r : RingBuffer) (size : ℕ)
    → GivesSize a
    → 0 < size
    → size < u64_mod
    → AllocResult size (ring_buffer_alloc a r size)
unfolding ring_buffer_alloc
ring_buffer_alloc_result a r size g p h =
    let c = alloc_size-Capacity size p h in
    let some_size : (alloc_size size == 0) ≡ false = positive c in
    rw (some_size, and_false (not (is_power_of_2 size)))
      (alloc_with-AllocResult r size (alloc_size size) _ h c (granted r.m_shared))
  where
    positive : Capacity size (alloc_size size) → (alloc_size size == 0) ≡ false
    positive c = ground (arith, c.over_half)

    and_false : (b : Bool) → (b && false) ≡ false
    and_false true = refl
    and_false false = refl

    granted :
        (shared : Bool) (b : List ℕ)
        → (if shared then a.mmap (alloc_size size) else a.posix_memalign 16 (alloc_size size))
          ≡ some b
        → length b ≡ alloc_size size
    granted true b e = g.mapped (alloc_size size) b e
    granted false b e = g.aligned 16 (alloc_size size) b e
