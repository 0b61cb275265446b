-- ===== src/Ring/Client.antt =====
-- A client's whole sequence of calls, against a bounded queue of bytes.
use ig_libs.Base.{
  ◌>>=◌, ℕ, ◌-◌, min, ◌≡◌, refl, arith, Option, some, List, [], ◌∷◌, ◌++◌, length, take, drop,
}
use ig_libs.Ring.{RingBuffer, ring_buffer_write, ring_buffer_read}
use ig_libs.Ring.Holds.{Holds}
use ig_libs.Ring.Write.{ring_buffer_write_refines}
use ig_libs.Ring.Read.{ring_buffer_read_refines}

-- A call, and what the caller sees of it: the count, and the bytes at its buffer.
pub data Op : Type 0 where
  put : List ℕ → Op
  get : ℕ → Op

abbrev pub Reply : Type 0
Reply = ℕ × List ℕ

-- The queue: at most `cap` bytes, oldest first.
unfoldable pub queue_run : ℕ → List ℕ → List Op → List Reply
queue_run cap q [] = []
queue_run cap q (put src ∷ ops) =
    let n = min (length src) (cap - length q) in (n, []) ∷ queue_run cap (q ++ take n src) ops
queue_run cap q (get wanted ∷ ops) =
    let n = min wanted (length q) in (n, take n q) ∷ queue_run cap (drop n q) ops

pub ring_run : RingBuffer → List Op → Option (List Reply)
ring_run r [] = some []
ring_run r (put src ∷ ops) = do
  (n, r') ← ring_buffer_write r src (length src)
  replies ← ring_run r' ops
  some ((n, []) ∷ replies)
ring_run r (get wanted ∷ ops) = do
  (n, out, r') ← ring_buffer_read r wanted
  replies ← ring_run r' ops
  some ((n, out) ∷ replies)

-- No sequence of writes and reads tells a ring that holds `q` from the bounded queue `q` of the
-- ring's capacity: every count and every byte agree, and no call faults.
pub ring_run_refines :
    (ops : List Op) (r : RingBuffer) (q : List ℕ)
    → Holds r q
    → ring_run r ops ≡ some (queue_run r.m_size q ops)
unfolding ring_run queue_run
ring_run_refines [] r q v = refl
ring_run_refines (put src ∷ ops) r q v =
    let (r', ran, v', size) = ring_buffer_write_refines src (length src) v (omega arith) in
    rw (
      ran,
      ring_run_refines ops r' (q ++ take (min (length src) (r.m_size - length q)) src) v',
      size,
    )
ring_run_refines (get wanted ∷ ops) r q v =
    let (r', ran, v', size) = ring_buffer_read_refines wanted v in
    rw (ran, ring_run_refines ops r' (drop (min wanted (length q)) q) v', size)
