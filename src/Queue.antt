-- ===== src/Queue.antt =====
-- shared_queue.h and shared_queue.cpp: the ring behind a pipe that wakes the reader.
-- The kernel's answer to `pipe2` is an argument; what a call asks of the kernel is part of its result.
pub mod Laws
pub mod Lifecycle
pub mod Client
pub mod Threads
mod Tests
use ig_libs.Base.{
  ◌>>=◌, ℕ, ◌-◌, ℤ, pos, negsuc, is_neg, Bool, true, false, not, ◌&&◌, ◌||◌, Option, none, some,
  List, [], ◌∷◌, ◌++◌, ltb, ◌==◌, if◌then◌else◌,
}
use ig_libs.Base.Words.{sub64}
use ig_libs.Ring.{
  RingBuffer, Allocator, new_ring_buffer, ring_buffer_alloc, ring_buffer_free, ring_buffer_read,
  ring_buffer_write, ring_buffer_readable_size, set_shared,
}

pub record SharedQueue : Type 0 where
  pub read_fd : ℤ
  pub write_fd : ℤ
  pub m_ring_buffer : RingBuffer

-- What is asked of the kernel: `close(fd)`, `read(fd, tmp, 1)` and `write(fd, tmp, 1)`.
pub data SysCall : Type 0 where
  close_fd : ℤ → SysCall
  read_byte : ℤ → SysCall
  write_byte : ℤ → SysCall

pub new_shared_queue : SharedQueue
new_shared_queue = record {
  read_fd = negsuc 0;
  write_fd = negsuc 0;
  m_ring_buffer = new_ring_buffer;
}

pub reset_fd : SharedQueue → SharedQueue
reset_fd s = record s { read_fd = negsuc 0; write_fd = negsuc 0 }

pub close_both : SharedQueue → SharedQueue × List SysCall
close_both s = (
  reset_fd s,
  (if is_neg s.read_fd then [] else close_fd s.read_fd ∷ [])
      ++ (if is_neg s.write_fd then [] else close_fd s.write_fd ∷ []),
)

-- What the ring's answer to `ring_buffer_alloc` makes of a queue whose pipe is open.
pub init_ring : SharedQueue → ℕ × RingBuffer → ℤ × SharedQueue × List SysCall
init_ring s (n, ring) =
    let t : SharedQueue = record s { m_ring_buffer = ring } in
    let (closed, calls) = close_both t in
    if n == 0 then (negsuc 1, closed, calls) else (pos 0, t, [])

-- `pipe2` stores two descriptors, which are not negative, if it succeeds, and nothing if it fails.
pub init_piped :
    Allocator → Option (ℕ × ℕ) → SharedQueue → ℕ → Bool → ℤ × SharedQueue × List SysCall
init_piped a none s size shared = (negsuc 0, s, [])
init_piped a (some (r, w)) s size shared =
    init_ring (record s { read_fd = pos r; write_fd = pos w })
      (ring_buffer_alloc a (set_shared s.m_ring_buffer shared) size)

pub init : Allocator → Option (ℕ × ℕ) → SharedQueue → ℕ → Bool → ℤ × SharedQueue × List SysCall
init a piped s size shared =
    if not (is_neg s.read_fd) || not (is_neg s.write_fd)
    then (pos 1, s, [])
    else init_piped a piped s size shared

pub uninit : SharedQueue → ℤ × SharedQueue × List SysCall
uninit s =
    let (closed, calls) = close_both s in
    (pos 0, record closed { m_ring_buffer = ring_buffer_free s.m_ring_buffer }, calls)

pub get_size : SharedQueue → ℕ
get_size s = s.m_ring_buffer.m_size

pub get_readable_size : SharedQueue → ℕ
get_readable_size s = ring_buffer_readable_size s.m_ring_buffer

pub get_writeable_size : SharedQueue → ℕ
get_writeable_size s = sub64 (get_size s) (get_readable_size s)

-- The return value, the bytes at the caller's buffer, the queue and the calls; `none` is a fault.
pub read : SharedQueue → ℕ → Bool → Option (ℤ × List ℕ × SharedQueue × List SysCall)
read s size clear_notify =
    if ltb (get_readable_size s) size then some (negsuc 0, [], s, []) else (do
      (ret, bytes, ring) ← ring_buffer_read s.m_ring_buffer size
      let t : SharedQueue = record s { m_ring_buffer = ring }
      some (
          if ret == 0
          then (negsuc 0, bytes, t, [])
          else (pos ret, bytes, t, if clear_notify then read_byte s.read_fd ∷ [] else [])))

pub write : SharedQueue → List ℕ → ℕ → Bool → Option (ℤ × SharedQueue × List SysCall)
write s buf size write_notify =
    if ltb (get_writeable_size s) size then some (negsuc 0, s, []) else (do
      (ret, ring) ← ring_buffer_write s.m_ring_buffer buf size
      let t : SharedQueue = record s { m_ring_buffer = ring }
      some (
          if ret == 0
          then (negsuc 0, t, [])
          else (pos ret, t, if write_notify then write_byte s.write_fd ∷ [] else [])))
