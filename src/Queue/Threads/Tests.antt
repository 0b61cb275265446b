-- ===== src/Queue/Threads/Tests.antt =====
-- An empty queue of four bytes, a message of two, and a read of one byte that starts when the message is published and before the pipe
-- has its byte.
use ig_libs.Base.{
  ℕ, ◌-◌, ◌^◌, ◌≤◌, ◌≡◌, ◌≢◌, refl, arith, pos, none, some, List, [], ◌∷◌, ◌++◌, length, true,
  false,
}
use ig_libs.Base.Tabulate.{tabulate}
use ig_libs.Base.Words.{add64, sub64}
use ig_libs.Ring.{RingBuffer, store_bytes, load_bytes, blit, ring_buffer_readable_size}
use ig_libs.Ring.Holds.{Holds}
use ig_libs.Ring.Shared.{loading, idle, copy_place, write_start, write_next, read_start, read_next}
use ig_libs.Queue.{SharedQueue, get_size, get_readable_size, get_writeable_size}
use ig_libs.Queue.Threads.{
  Pair, ringing, getting, clearing, write_calls, write_enters, write_moves, read_calls, read_enters,
  read_moves, opened, Reach, start, later,
}
use ig_libs.Queue.Threads.Whole.{put_in, put_count, got_out, AllWhole, AllExact}
use ig_libs.Queue.Threads.Frames.{messages, parts, queue_threads_frames}
use ig_libs.Queue.Threads.Safety.{queue_threads_safe}

abbrev empty : RingBuffer
empty = record {
  m_buffer = some (0 ∷ 0 ∷ 0 ∷ 0 ∷ []);
  m_size = 4;
  m_in = 2 ^ 64 - 1;
  m_out = 2 ^ 64 - 1;
  m_shared = false;
}

empty-Holds : Holds empty []
unfolding tabulate
empty-Holds = record {
  storage = 0 ∷ 0 ∷ 0 ∷ 0 ∷ [];
  held = refl;
  sized = refl;
  width = 2;
  pow = refl;
  narrow = omega arith;
  out_small = omega arith;
  used = refl;
  fits = omega arith;
  bytes = refl;
}

abbrev queue : SharedQueue
queue = record { read_fd = pos 3; write_fd = pos 4; m_ring_buffer = empty }

-- The first byte is loaded.
abbrev midway : Pair
midway = record {
  queue = queue;
  core = record {
    ring = record empty { m_buffer = some (2 ∷ 0 ∷ 0 ∷ 1 ∷ []); m_in = 1 };
    writer = idle;
    reader = loading 1 1 (1 ∷ []);
    sent = 1 ∷ 2 ∷ [];
    received = [];
  };
  putter = ringing;
  taker = getting 1 true;
  written = (1 ∷ 2 ∷ [], pos 2) ∷ [];
  taken = [];
  rung = 0;
}

midway-reached : Reach queue midway
unfolding write_start write_next read_start read_next copy_place store_bytes load_bytes blit add64
    sub64 get_size get_readable_size get_writeable_size ring_buffer_readable_size
midway-reached =
    let z : Reach queue (opened queue) = start in
    let a =
      later (later z (write_calls (1 ∷ 2 ∷ []) true refl)) (write_enters (1 ∷ 2 ∷ []) true refl) in
    let b =
      later
        (later (later a (write_moves (1 ∷ 2 ∷ []) true refl refl))
          (write_moves (1 ∷ 2 ∷ []) true refl refl))
        (write_moves (1 ∷ 2 ∷ []) true refl refl) in
    later (later (later b (read_calls 1 true refl)) (read_enters 1 true refl))
      (read_moves 1 true refl refl)

queue_threads_safe_example :
    AllWhole midway.written
    × AllExact midway.taken
    × ((rest : List ℕ) × (put_in midway.written ≡ got_out midway.taken ++ rest)
        × (length rest ≤ get_size queue))
    × (midway.rung ≤ put_count midway.written)
    × (write_next midway.core.ring midway.core.writer ≢ none)
    × (read_next midway.core.ring midway.core.reader ≢ none)
queue_threads_safe_example = queue_threads_safe empty-Holds midway-reached

-- The message and a read of the same length, both done.
abbrev done : Pair
done = record {
  queue = queue;
  core = record {
    ring = record empty { m_buffer = some (2 ∷ 0 ∷ 0 ∷ 1 ∷ []); m_in = 1; m_out = 1 };
    writer = idle;
    reader = idle;
    sent = 1 ∷ 2 ∷ [];
    received = 1 ∷ 2 ∷ [];
  };
  putter = ringing;
  taker = clearing;
  written = (1 ∷ 2 ∷ [], pos 2) ∷ [];
  taken = (2, 1 ∷ 2 ∷ [], pos 2) ∷ [];
  rung = 0;
}

done-reached : Reach queue done
unfolding write_start write_next read_start read_next copy_place store_bytes load_bytes blit add64
    sub64 get_size get_readable_size get_writeable_size ring_buffer_readable_size
done-reached =
    let z : Reach queue (opened queue) = start in
    let a =
      later (later z (write_calls (1 ∷ 2 ∷ []) true refl)) (write_enters (1 ∷ 2 ∷ []) true refl) in
    let b =
      later
        (later (later a (write_moves (1 ∷ 2 ∷ []) true refl refl))
          (write_moves (1 ∷ 2 ∷ []) true refl refl))
        (write_moves (1 ∷ 2 ∷ []) true refl refl) in
    let c = later (later b (read_calls 2 true refl)) (read_enters 2 true refl) in
    later (later (later c (read_moves 2 true refl refl)) (read_moves 2 true refl refl))
      (read_moves 2 true refl refl)

queue_threads_frames_example :
    (left : List (List ℕ)) × (messages done.written ≡ parts done.taken ++ left)
queue_threads_frames_example =
    queue_threads_frames 2 empty-Holds done-reached (omega arith) (refl, tt) (refl, tt)
