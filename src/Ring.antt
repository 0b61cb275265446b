-- ===== src/Ring.antt =====
-- ring_buffer.h and ring_buffer.cpp: the byte ring of one writer and one reader, each call run whole.
pub mod Window
pub mod Written
pub mod Memory
pub mod Holds
pub mod Write
pub mod Read
pub mod Alloc
pub mod Client
pub mod Freed
pub mod Shared
mod Tests
use ig_libs.Base.{
  ◌>>=◌, ℕ, zero, suc, ◌+◌, ◌-◌, min, bit_and, Bool, true, false, not, ◌&&◌, Option, none, some,
  List, [], ◌∷◌, ◌++◌, ◌≡◌, length, set, take, drop, leb, ◌==◌, if◌then◌else◌,
}
use ig_libs.Base.Words.{add64, sub64}
use ig_libs.Utils.{is_power_of_2, roundup_pow_of_two}

-- `m_buffer` is `none` for NULL.
pub record RingBuffer : Type 0 where
  pub m_buffer : Option (List ℕ)
  pub m_size : ℕ
  pub m_in : ℕ
  pub m_out : ℕ
  pub m_shared : Bool

pub new_ring_buffer : RingBuffer
new_ring_buffer = record { m_buffer = none; m_size = 0; m_in = 0; m_out = 0; m_shared = false }

-- `posix_memalign(&p, alignment, size)` and `mmap(NULL, size, ...)`: the memory, or a failure.
pub record Allocator : Type 0 where
  pub posix_memalign : ℕ → ℕ → Option (List ℕ)
  pub mmap : ℕ → Option (List ℕ)

-- Memory that was granted has the size that was asked for.
pub record GivesSize (a : Allocator) : Type 0 where
  pub aligned :
      (alignment size : ℕ) (b : List ℕ) → a.posix_memalign alignment size ≡ some b → length b ≡ size
  pub mapped : (size : ℕ) (b : List ℕ) → a.mmap size ≡ some b → length b ≡ size

pub ring_buffer_reset : RingBuffer → RingBuffer
ring_buffer_reset r = record r { m_in = 0; m_out = 0 }

-- The size that `ring_buffer_alloc` asks for.
alloc_size : ℕ → ℕ
alloc_size size = if is_power_of_2 size then size else roundup_pow_of_two size

-- What the memory call's answer makes of the ring.
pub alloc_with : RingBuffer → ℕ → Option (List ℕ) → ℕ × RingBuffer
alloc_with r size none = (0, record r { m_buffer = none })
alloc_with r size (some b) =
    (size, ring_buffer_reset (record r { m_buffer = some b; m_size = size }))

pub ring_buffer_alloc : Allocator → RingBuffer → ℕ → ℕ × RingBuffer
ring_buffer_alloc a r size =
    let n = alloc_size size in
    if not (is_power_of_2 size) && n == 0
    then (0, r)
    else alloc_with r n (if r.m_shared then a.mmap n else a.posix_memalign 16 n)

-- The memory goes back to the system; `m_size` keeps its value.
pub ring_buffer_free : RingBuffer → RingBuffer
ring_buffer_free r = record (ring_buffer_reset r) { m_buffer = none }

unfoldable pub ring_buffer_readable_size : RingBuffer → ℕ
ring_buffer_readable_size r = sub64 r.m_in r.m_out

pub set_shared : RingBuffer → Bool → RingBuffer
set_shared r shared = elim r.m_buffer [ some b ↦ r | none ↦ record r { m_shared = shared } ]

-- The bytes of `xs` one after another from index `off`.
unfoldable pub blit : List ℕ → ℕ → List ℕ → List ℕ
blit b off [] = b
blit b off (x ∷ xs) = blit (set b off x) (suc off) xs

-- `memcpy` into memory. `none` is a fault: a byte outside the storage, or through NULL.
unfoldable pub store_bytes : Option (List ℕ) → ℕ → List ℕ → Option (Option (List ℕ))
store_bytes m off [] = some m
store_bytes none off (x ∷ xs) = none
store_bytes (some b) off (x ∷ xs) =
    if leb (off + length (x ∷ xs)) (length b) then some (some (blit b off (x ∷ xs))) else none

-- `memcpy` out of memory.
unfoldable pub load_bytes : Option (List ℕ) → ℕ → ℕ → Option (List ℕ)
load_bytes m off zero = some []
load_bytes none off (suc n) = none
load_bytes (some b) off (suc n) =
    if leb (off + suc n) (length b) then some (take (suc n) (drop off b)) else none

-- The byte count and the ring, or a fault.
pub ring_buffer_write : RingBuffer → List ℕ → ℕ → Option (ℕ × RingBuffer)
ring_buffer_write r buffer wanted =
    let len = min wanted (add64 (sub64 r.m_size r.m_in) r.m_out) in
    let off = bit_and r.m_in (sub64 r.m_size 1) in
    let l = min len (sub64 r.m_size off) in
    do
      first ← load_bytes (some buffer) 0 l
      filled ← store_bytes r.m_buffer off first
      rest ← load_bytes (some buffer) l (len - l)
      stored ← store_bytes filled 0 rest
      some (len, record r { m_buffer = stored; m_in = add64 r.m_in len })

-- The byte count, the bytes that now stand at the caller's buffer, and the ring.
pub ring_buffer_read : RingBuffer → ℕ → Option (ℕ × List ℕ × RingBuffer)
ring_buffer_read r wanted =
    let len = min wanted (sub64 r.m_in r.m_out) in
    let off = bit_and r.m_out (sub64 r.m_size 1) in
    let l = min len (sub64 r.m_size off) in
    do
      first ← load_bytes r.m_buffer off l
      rest ← load_bytes r.m_buffer 0 (len - l)
      some (len, first ++ rest, record r { m_out = add64 r.m_out len })
