-- ===== src/Queue/Tests.antt =====
-- Queues at concrete states.
use ig_libs.Base.{
  ℕ, Option, length, pos, negsuc, ◌*◌, ◌⊎◌, ◌≡◌, refl, arith, true, false, none, some, List, [],
  ◌∷◌, replicate, length-replicate,
}
use ig_libs.Base.Tabulate.{tabulate}
use ig_libs.Ring.{Allocator, GivesSize}
use ig_libs.Ring.Alloc.{Capacity}
use ig_libs.Queue.{
  get_writeable_size, SharedQueue, close_fd, get_readable_size, get_size, write, uninit,
}
use ig_libs.Queue.Client.Bells.{piped, all_calls, queue_bells}
use ig_libs.Queue.Client.{
  Op, put, get, Reply, queue_run, queue_life, queue_life_refines, shared_run,
}
use ig_libs.Queue.Laws.{HoldsQueue}
use ig_libs.Queue.Lifecycle.{write-uninit_faults}

-- Two bytes of four, the first at index 3.
abbrev two_bytes : SharedQueue
two_bytes = record {
  read_fd = pos 3;
  write_fd = pos 4;
  m_ring_buffer = record {
    m_buffer = some (9 ∷ 0 ∷ 0 ∷ 8 ∷ []);
    m_size = 4;
    m_in = 5;
    m_out = 3;
    m_shared = false;
  };
}

two_bytes-HoldsQueue : HoldsQueue two_bytes (pos 3) (pos 4) (8 ∷ 9 ∷ [])
unfolding tabulate
two_bytes-HoldsQueue = record {
  ring = record {
    storage = 9 ∷ 0 ∷ 0 ∷ 8 ∷ [];
    held = refl;
    sized = refl;
    width = 2;
    pow = refl;
    narrow = omega arith;
    out_small = omega arith;
    used = refl;
    fits = omega arith;
    bytes = refl;
  };
  reader = refl;
  writer = refl;
}

-- A memory system that grants every request.
abbrev zeros : Allocator
zeros = record {
  posix_memalign = λ alignment n. some (replicate n 0);
  mmap = λ n. some (replicate n 0);
}

zeros-GivesSize : GivesSize zeros
zeros-GivesSize = record { aligned = λ alignment n b e. grant n b e; mapped = grant }
  where
    grant :
        (n : ℕ) (b : List ℕ)
        → ◌≡◌ {A = Option (List ℕ)} (some (replicate n 0)) (some b)
        → length b ≡ n
    grant n b e = ground (arith, length-replicate {A = ℕ} n 0)

write-uninit_faults_example :
    (get_writeable_size (uninit two_bytes).1 ≡ 4)
    × (write (uninit two_bytes).1 (1 ∷ []) 1 true ≡ none)
unfolding get_size
write-uninit_faults_example =
    write-uninit_faults two_bytes (pos 3) (pos 4) (8 ∷ 9 ∷ []) (1 ∷ []) 1 true two_bytes-HoldsQueue
      (omega arith) (omega arith) (omega arith)

-- A message, its answer, a read of too much and one of all that is there.
abbrev calls : List Op
calls = put (1 ∷ 2 ∷ []) true ∷ get 3 true ∷ get 2 true ∷ []

queue_life_refines_example :
    ((cap : ℕ) × Capacity 5 cap
      × (queue_life zeros (some (5, 6)) 5 false calls
          ≡ some (
            pos 0,
            [],
            queue_run (pos 5) (pos 6) cap [] calls,
            close_fd (pos 5) ∷ close_fd (pos 6) ∷ [],
          )))
    ⊎ (queue_life zeros (some (5, 6)) 5 false calls
        ≡ some (negsuc 1, close_fd (pos 5) ∷ close_fd (pos 6) ∷ [], [], []))
queue_life_refines_example =
    queue_life_refines zeros 5 6 5 false calls zeros-GivesSize (omega arith) (omega arith)

queue_bells_example :
    (replies : List Reply) × (u : SharedQueue) × (shared_run two_bytes
        (put (7 ∷ []) true ∷ get 1 true ∷ get 1 true ∷ [])
      ≡ some (replies, u))
    × (1 * piped 4 2 (all_calls replies) ≡ get_readable_size u)
unfolding get_size
queue_bells_example =
    queue_bells two_bytes (pos 3) (pos 4) (8 ∷ 9 ∷ []) 1 4 2
      (put (7 ∷ []) true ∷ get 1 true ∷ get 1 true ∷ []) two_bytes-HoldsQueue (omega arith)
      (omega arith) refl (refl, refl, (refl, refl, (refl, refl, tt)))
