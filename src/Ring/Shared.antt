-- ===== src/Ring/Shared.antt =====
-- ring_buffer.cpp with its writer and its reader at work at once: every access to shared memory is a step of
-- its own, the copies a byte at a time. The barriers are taken to keep the accesses in their order.
pub mod Places
pub mod Invariant
pub mod Shape
pub mod Moves
pub mod Safety
mod Tests
use ig_libs.Base.{
  ◌>>=◌, ℕ, suc, ◌+◌, ◌-◌, ◌≤◌, min, bit_and, ◌≡◌, Option, none, some, List, [], ◌∷◌, ◌++◌, length,
  take, ltb, if◌then◌else◌,
}
use ig_libs.Base.Words.{add64, sub64}
use ig_libs.Ring.{RingBuffer, store_bytes, load_bytes}

-- Where the writer stands: outside `ring_buffer_write`, or with `k` bytes of `len` copied.
pub data Writer : Type 0 where
  idle : Writer
  storing : (buffer : List ℕ) → (len k : ℕ) → Writer

-- Where the reader stands, with the bytes that are at its caller's buffer.
pub data Reader : Type 0 where
  idle : Reader
  loading : (len k : ℕ) → (got : List ℕ) → Reader

-- The place of byte `k` in a copy of `len` bytes from a counter on: of the first `memcpy`, then of the second.
unfoldable pub copy_place : RingBuffer → ℕ → ℕ → ℕ → ℕ
copy_place r counter len k =
    let off = bit_and counter (sub64 r.m_size 1) in
    let l = min len (sub64 r.m_size off) in if ltb k l then off + k else k - l

-- The call's entry, which looks at `m_out`.
unfoldable pub write_start : RingBuffer → List ℕ → ℕ → Writer
write_start r buffer wanted = storing buffer (min wanted (add64 (sub64 r.m_size r.m_in) r.m_out)) 0

-- One more byte, or the update of `m_in`, with the bytes that are published by it. `none` is a fault.
unfoldable pub write_next : RingBuffer → Writer → Option (RingBuffer × Writer × List ℕ)
write_next r idle = some (r, idle, [])
write_next r (storing buffer len k) =
    if ltb k len
    then (do
      byte ← load_bytes (some buffer) k 1
      stored ← store_bytes r.m_buffer (copy_place r r.m_in len k) byte
      some (record r { m_buffer = stored }, storing buffer len (suc k), []))
    else some (record r { m_in = add64 r.m_in len }, idle, take len buffer)

-- The call's entry, which looks at `m_in`.
unfoldable pub read_start : RingBuffer → ℕ → Reader
read_start r wanted = loading (min wanted (sub64 r.m_in r.m_out)) 0 []

-- One more byte, or the update of `m_out` and the return, with the bytes that are handed over.
unfoldable pub read_next : RingBuffer → Reader → Option (RingBuffer × Reader × List ℕ)
read_next r idle = some (r, idle, [])
read_next r (loading len k got) =
    if ltb k len
    then (do
      byte ← load_bytes r.m_buffer (copy_place r r.m_out len k) 1
      some (r, loading len (suc k) (got ++ byte), []))
    else some (record r { m_out = add64 r.m_out len }, idle, got)

-- The ring, the two threads, all that was published and all that was handed over.
pub record System : Type 0 where
  pub ring : RingBuffer
  pub writer : Writer
  pub reader : Reader
  pub sent : List ℕ
  pub received : List ℕ

-- The threads move in any order. A caller's buffer has the wanted count of bytes.
pub data Step (s : System) : System → Type 0 where
  call_write :
      (buffer : List ℕ) (wanted : ℕ)
      → s.writer ≡ idle
      → wanted ≤ length buffer
      → Step s (record s { writer = write_start s.ring buffer wanted })
  move_writer :
      {r : RingBuffer} {w : Writer} {bytes : List ℕ}
      → write_next s.ring s.writer ≡ some (r, w, bytes)
      → Step s (record s { ring = r; writer = w; sent = s.sent ++ bytes })
  call_read :
      (wanted : ℕ) → s.reader ≡ idle → Step s (record s { reader = read_start s.ring wanted })
  move_reader :
      {r : RingBuffer} {d : Reader} {bytes : List ℕ}
      → read_next s.ring s.reader ≡ some (r, d, bytes)
      → Step s (record s { ring = r; reader = d; received = s.received ++ bytes })

abbrev pub begin : RingBuffer → System
begin r = record { ring = r; writer = idle; reader = idle; sent = []; received = [] }

pub data Reach (r : RingBuffer) : System → Type 0 where
  start : Reach r (begin r)
  later : {s t : System} → Reach r s → Step s t → Reach r t
