-- ===== src/Ring/Shared/Tests.antt =====
-- An empty ring of four bytes, a write of two under way, and a read that comes in between.
use ig_libs.Base.{
  ℕ, ◌-◌, ◌^◌, ◌≤◌, ◌≡◌, ◌≢◌, refl, arith, none, some, List, [], ◌∷◌, ◌++◌, length, false,
}
use ig_libs.Base.Tabulate.{tabulate}
use ig_libs.Base.Words.{add64, sub64}
use ig_libs.Ring.{RingBuffer, store_bytes, load_bytes, blit}
use ig_libs.Ring.Holds.{Holds}
use ig_libs.Ring.Shared.{
  storing, loading, copy_place, write_start, write_next, read_start, read_next, System, call_write,
  move_writer, call_read, move_reader, begin, Reach, start, later,
}
use ig_libs.Ring.Shared.Safety.{shared_ring_safe}

-- The next byte goes to index 3, the one after to index 0.
abbrev empty : RingBuffer
empty = record {
  m_buffer = some (0 ∷ 0 ∷ 0 ∷ 0 ∷ []);
  m_size = 4;
  m_in = 2 ^ 64 - 1;
  m_out = 2 ^ 64 - 1;
  m_shared = false;
}

empty-Holds : Holds empty []
unfolding tabulate
empty-Holds = record {
  storage = 0 ∷ 0 ∷ 0 ∷ 0 ∷ [];
  held = refl;
  sized = refl;
  width = 2;
  pow = refl;
  narrow = omega arith;
  out_small = omega arith;
  used = refl;
  fits = omega arith;
  bytes = refl;
}

-- Two bytes published and a third one stored, one byte loaded.
abbrev midway : System
midway = record {
  ring = record empty { m_buffer = some (2 ∷ 3 ∷ 0 ∷ 1 ∷ []); m_in = 1 };
  writer = storing (3 ∷ []) 1 1;
  reader = loading 2 1 (1 ∷ []);
  sent = 1 ∷ 2 ∷ [];
  received = [];
}

midway-reached : Reach empty midway
unfolding write_start write_next read_start read_next copy_place store_bytes load_bytes blit add64
    sub64
midway-reached =
    let z : Reach empty (begin empty) = start in
    let a = later z (call_write (1 ∷ 2 ∷ []) 2 refl (omega arith)) in
    let b = later (later (later a (move_writer refl)) (move_writer refl)) (move_writer refl) in
    let c = later (later b (call_read 9 refl)) (call_write (3 ∷ []) 1 refl (omega arith)) in
    later (later c (move_reader refl)) (move_writer refl)

shared_ring_safe_example :
    (q : List ℕ) × (midway.sent ≡ midway.received ++ q)
    × (length q ≤ 4)
    × Holds midway.ring q
    × (write_next midway.ring midway.writer ≢ none)
    × (read_next midway.ring midway.reader ≢ none)
shared_ring_safe_example = shared_ring_safe empty-Holds midway-reached
