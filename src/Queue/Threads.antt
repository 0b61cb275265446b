-- ===== src/Queue/Threads.antt =====
-- shared_queue.cpp with a writing and a reading thread at once. The test of a call, each access of the ring's call under it, and the
-- call on the pipe are steps of their own.
pub mod Whole
pub mod Puts
pub mod Takes
pub mod Safety
pub mod Frames
mod Tests
use ig_libs.Base.{
  ℕ, zero, suc, ◌+◌, ℤ, pos, negsuc, ◌≡◌, Bool, Option, some, List, [], ◌∷◌, ◌++◌, length, ltb,
  ◌==◌, if◌then◌else◌,
}
use ig_libs.Ring.{RingBuffer}
use ig_libs.Ring.Shared.{
  Writer, Reader, idle, storing, loading, write_start, write_next, read_start, read_next, System,
  begin,
}
use ig_libs.Queue.{SharedQueue, get_readable_size, get_writeable_size}

-- Where the writing thread stands: outside `write`, behind its test, in ring_buffer_write, or before the byte for the pipe.
pub data Putter : Type 0 where
  resting : Putter
  tested : (msg : List ℕ) (write_notify : Bool) → Putter
  putting : (msg : List ℕ) (write_notify : Bool) → Putter
  ringing : Putter

-- And the reading thread, in `read`.
pub data Taker : Type 0 where
  resting : Taker
  tested : (size : ℕ) (clear_notify : Bool) → Taker
  getting : (size : ℕ) (clear_notify : Bool) → Taker
  clearing : Taker

-- A call of `write` whose return value is settled: the message and the value.
abbrev pub Written : Type 0
Written = List ℕ × ℤ

-- A call of `read`: the size, the bytes and the value.
abbrev pub Taken : Type 0
Taken = ℕ × List ℕ × ℤ

abbrev pub write_called : SharedQueue → List ℕ → Bool → Putter × List Written
write_called s msg write_notify =
    if ltb (get_writeable_size s) (length msg)
    then (resting, (msg, negsuc 0) ∷ [])
    else (tested msg write_notify, [])

-- After an access of ring_buffer_write, which is at `w` then and has published `bytes`.
abbrev pub write_moved : List ℕ → Bool → Writer → List ℕ → Putter × List Written
write_moved msg write_notify (storing buffer len k) bytes = (putting msg write_notify, [])
write_moved msg write_notify idle bytes =
    if length bytes == 0
    then (resting, (msg, negsuc 0) ∷ [])
    else (if write_notify then ringing else resting, (msg, pos (length bytes)) ∷ [])

abbrev pub read_called : SharedQueue → ℕ → Bool → Taker × List Taken
read_called s size clear_notify =
    if ltb (get_readable_size s) size
    then (resting, (size, [], negsuc 0) ∷ [])
    else (tested size clear_notify, [])

abbrev pub read_moved : ℕ → Bool → Reader → List ℕ → Taker × List Taken
read_moved size clear_notify (loading len k got) bytes = (getting size clear_notify, [])
read_moved size clear_notify idle bytes =
    if length bytes == 0
    then (resting, (size, [], negsuc 0) ∷ [])
    else (if clear_notify then clearing else resting, (size, bytes, pos (length bytes)) ∷ [])

-- The queue's descriptors, the ring at work, the threads, their calls, and the bytes given to the pipe.
pub record Pair : Type 0 where
  pub queue : SharedQueue
  pub core : System
  pub putter : Putter
  pub taker : Taker
  pub written : List Written
  pub taken : List Taken
  pub rung : ℕ

abbrev pub seen : Pair → SharedQueue
seen s = record s.queue { m_ring_buffer = s.core.ring }

pub data Step (s : Pair) : Pair → Type 0 where
  write_calls :
      (msg : List ℕ) (write_notify : Bool)
      → s.putter ≡ resting
      → Step s (record s {
        putter = (write_called (seen s) msg write_notify).0;
        written = s.written ++ (write_called (seen s) msg write_notify).1;
      })
  write_enters :
      (msg : List ℕ) (write_notify : Bool)
      → s.putter ≡ tested msg write_notify
      → Step s (record s {
        putter = putting msg write_notify;
        core = record s.core { writer = write_start s.core.ring msg (length msg) };
      })
  write_moves :
      (msg : List ℕ) (write_notify : Bool) {r : RingBuffer} {w : Writer} {bytes : List ℕ}
      → s.putter ≡ putting msg write_notify
      → write_next s.core.ring s.core.writer ≡ some (r, w, bytes)
      → Step s (record s {
        putter = (write_moved msg write_notify w bytes).0;
        written = s.written ++ (write_moved msg write_notify w bytes).1;
        core = record s.core { ring = r; writer = w; sent = s.core.sent ++ bytes };
      })
  rings : s.putter ≡ ringing → Step s (record s { putter = resting; rung = suc s.rung })
  read_calls :
      (size : ℕ) (clear_notify : Bool)
      → s.taker ≡ resting
      → Step s (record s {
        taker = (read_called (seen s) size clear_notify).0;
        taken = s.taken ++ (read_called (seen s) size clear_notify).1;
      })
  read_enters :
      (size : ℕ) (clear_notify : Bool)
      → s.taker ≡ tested size clear_notify
      → Step s (record s {
        taker = getting size clear_notify;
        core = record s.core { reader = read_start s.core.ring size };
      })
  read_moves :
      (size : ℕ) (clear_notify : Bool) {r : RingBuffer} {d : Reader} {bytes : List ℕ}
      → s.taker ≡ getting size clear_notify
      → read_next s.core.ring s.core.reader ≡ some (r, d, bytes)
      → Step s (record s {
        taker = (read_moved size clear_notify d bytes).0;
        taken = s.taken ++ (read_moved size clear_notify d bytes).1;
        core = record s.core { ring = r; reader = d; received = s.core.received ++ bytes };
      })
  clears : s.taker ≡ clearing → Step s (record s { taker = resting })

abbrev pub opened : SharedQueue → Pair
opened q = record {
  queue = q;
  core = begin q.m_ring_buffer;
  putter = resting;
  taker = resting;
  written = [];
  taken = [];
  rung = 0;
}

pub data Reach (q : SharedQueue) : Pair → Type 0 where
  start : Reach q (opened q)
  later : {s t : Pair} → Reach q s → Step s t → Reach q t
