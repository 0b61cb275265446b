-- ===== src/Ring/Tests.antt =====
-- Rings at concrete states, one of them round the end of its storage and of its counters.
use ig_libs.Base.{◌-◌, ◌^◌, ◌≡◌, refl, arith, some, [], ◌∷◌, false}
use ig_libs.Base.Tabulate.{tabulate}
use ig_libs.Base.Words.{add64, sub64}
use ig_libs.Ring.{RingBuffer, blit, load_bytes, store_bytes, ring_buffer_write, ring_buffer_read}
use ig_libs.Ring.Holds.{Holds}
use ig_libs.Ring.Client.{put, get, ring_run, queue_run, ring_run_refines}

-- 8, then 9: the next byte goes to index 0, and `m_in` has wrapped.
abbrev wrapped : RingBuffer
wrapped = record {
  m_buffer = some (9 ∷ 0 ∷ 0 ∷ 8 ∷ []);
  m_size = 4;
  m_in = 1;
  m_out = 2 ^ 64 - 1;
  m_shared = false;
}

wrapped-Holds : Holds wrapped (8 ∷ 9 ∷ [])
unfolding tabulate
wrapped-Holds = record {
  storage = 9 ∷ 0 ∷ 0 ∷ 8 ∷ [];
  held = refl;
  sized = refl;
  width = 2;
  pow = refl;
  narrow = omega arith;
  out_small = omega arith;
  used = refl;
  fits = omega arith;
  bytes = refl;
}

write_wraps :
    ring_buffer_write wrapped (1 ∷ 2 ∷ 3 ∷ []) 3
    ≡ some (2, record wrapped { m_buffer = some (9 ∷ 1 ∷ 2 ∷ 8 ∷ []); m_in = 3 })
unfolding ring_buffer_write load_bytes store_bytes blit add64 sub64
write_wraps = refl

read_wraps : ring_buffer_read wrapped 9 ≡ some (2, 8 ∷ 9 ∷ [], record wrapped { m_out = 1 })
unfolding ring_buffer_read load_bytes add64 sub64
read_wraps = refl

ring_run_refines_example :
    ring_run wrapped (put (1 ∷ 2 ∷ 3 ∷ []) ∷ get 3 ∷ []) ≡ some ((2, []) ∷ (3, 8 ∷ 9 ∷ 1 ∷ []) ∷ [])
unfolding queue_run
ring_run_refines_example =
    ring_run_refines (put (1 ∷ 2 ∷ 3 ∷ []) ∷ get 3 ∷ []) wrapped (8 ∷ 9 ∷ []) wrapped-Holds
