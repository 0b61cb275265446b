-- ===== src/Ring/Memory.antt =====
-- The copies of ring_buffer.cpp that stay inside their memory do not fault.
use ig_libs.Base.{
  ℕ, zero, suc, ◌+◌, ◌≤◌, ◌≡◌, refl, some, List, [], ◌∷◌, length, take, drop, le→leb,
}
use ig_libs.Ring.{blit, store_bytes, load_bytes}

pub load_bytes_lem :
    (b : List ℕ) (off n : ℕ)
    → off + n ≤ length b
    → load_bytes (some b) off n ≡ some (take n (drop off b))
unfolding load_bytes
load_bytes_lem b off zero h = refl
load_bytes_lem b off (suc n) h = rw (le→leb (off + suc n) (length b) h)

pub store_bytes_lem :
    (b : List ℕ) (off : ℕ) (xs : List ℕ)
    → off + length xs ≤ length b
    → store_bytes (some b) off xs ≡ some (some (blit b off xs))
unfolding store_bytes blit
store_bytes_lem b off [] h = refl
store_bytes_lem b off (x ∷ xs) h = rw (le→leb (off + length (x ∷ xs)) (length b) h)
