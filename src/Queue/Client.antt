-- ===== src/Queue/Client.antt =====
-- shared_queue.cpp: the whole life of a queue, from init over any calls to uninit, against a bounded queue of messages.
pub mod Bells
use native.Mathlib.Nat.{mul-suc, mul-zero, lt_of_mul-lt-mul_left}
use ig_libs.Base.{
  ◌>>=◌, ℕ, zero, suc, ◌+◌, ◌-◌, ◌*◌, ◌≤◌, ◌<◌, ℤ, pos, negsuc, ◌≡◌, ◌⊎◌, inl, inr, refl, sym, ap,
  ◌∙◌, subst, arith, Bool, true, false, ◌&&◌, Option, some, List, [], ◌∷◌, ◌++◌, length,
  length-append, length-drop, take, drop, Bool-cases, ltb, leb, lt→ltb, if◌then◌else◌,
}
use ig_libs.Base.Words.{u64_mod}
use ig_libs.Ring.{Allocator, GivesSize}
use ig_libs.Ring.Alloc.{Capacity}
use ig_libs.Queue.{
  SharedQueue, SysCall, close_fd, read_byte, write_byte, new_shared_queue, close_both, get_size,
  get_readable_size, init, uninit, read, write,
}
use ig_libs.Queue.Laws.{
  HoldsQueue, get_readable_size_lem, rings, WriteResult, ReadResult, write_result, read_result,
}
use ig_libs.Queue.Lifecycle.{IsClosed, InitResult, init_result}

-- A call of write, with its message and `write_notify`, or of read, with a size and `clear_notify`.
pub data Op : Type 0 where
  put : List ℕ → Bool → Op
  get : ℕ → Bool → Op

-- The return value, the bytes at the caller's buffer, and what is asked of the kernel.
abbrev pub Reply : Type 0
Reply = ℤ × List ℕ × List SysCall

-- The queue: at most `cap` bytes, oldest first. A message goes in whole or not at all.
module _ (r w : ℤ) (cap : ℕ) where
  abbrev pub takes : List ℕ → List ℕ → Bool
  takes q msg = ltb 0 (length msg) && leb (length msg) (cap - length q)

  abbrev pub gives : List ℕ → ℕ → Bool
  gives q size = ltb 0 size && leb size (length q)

  unfoldable pub queue_run : List ℕ → List Op → List Reply
  queue_run q [] = []
  queue_run q (put msg notify ∷ ops) =
      let taken = queue_run (q ++ msg) ops in
      let refused = queue_run q ops in
      if takes q msg
      then (pos (length msg), [], rings notify (write_byte w)) ∷ taken
      else (negsuc 0, [], []) ∷ refused
  queue_run q (get size clear ∷ ops) =
      let given = queue_run (drop size q) ops in
      let refused = queue_run q ops in
      if gives q size
      then (pos size, take size q, rings clear (read_byte r)) ∷ given
      else (negsuc 0, [], []) ∷ refused

  -- What is left in it.
  unfoldable pub queue_left : List ℕ → List Op → List ℕ
  queue_left q [] = q
  queue_left q (put msg notify ∷ ops) =
      let taken = queue_left (q ++ msg) ops in
      let refused = queue_left q ops in if takes q msg then taken else refused
  queue_left q (get size clear ∷ ops) =
      let given = queue_left (drop size q) ops in
      let refused = queue_left q ops in if gives q size then given else refused

pub shared_run : SharedQueue → List Op → Option (List Reply × SharedQueue)
shared_run s [] = some ([], s)
shared_run s (put msg notify ∷ ops) = do
  (ret, t, calls) ← write s msg (length msg) notify
  (replies, u) ← shared_run t ops
  some ((ret, [], calls) ∷ replies, u)
shared_run s (get size clear ∷ ops) = do
  (ret, bytes, t, calls) ← read s size clear
  (replies, u) ← shared_run t ops
  some ((ret, bytes, calls) ∷ replies, u)

take_all : (xs : List ℕ) → take (length xs) xs ≡ xs
take_all [] = refl
take_all (x ∷ xs) = ap (λ t. x ∷ t) (take_all xs)

-- What a run does to a queue that holds `q`.
abbrev Refined : ℤ → ℤ → ℕ → List ℕ → List Op → Option (List Reply × SharedQueue) → Type 0
Refined r w cap q ops out =
    (u : SharedQueue) × (out ≡ some (queue_run r w cap q ops, u))
    × HoldsQueue u r w (queue_left r w cap q ops)
    × (get_size u ≡ cap)

module _ (r w : ℤ) (cap : ℕ) where
  pub shared_run-Refined :
      (ops : List Op) (s : SharedQueue) (q : List ℕ)
      → HoldsQueue s r w q
      → get_size s ≡ cap
      → Refined r w cap q ops (shared_run s ops)
  unfolding shared_run queue_run queue_left
  shared_run-Refined [] s q v z = (s, refl, v, z)
  shared_run-Refined (put msg notify ∷ ops) s q v z =
      by (write_result s r w q msg (length msg) notify v (omega arith)) (shared_run-Refined ops)
    where
      by :
          WriteResult s r w q msg (length msg) notify (write s msg (length msg) notify)
          → ((t : SharedQueue) (q' : List ℕ)
              → HoldsQueue t r w q'
              → get_size t ≡ cap
              → Refined r w cap q' ops (shared_run t ops))
          → Refined r w cap q (put msg notify ∷ ops) (shared_run s (put msg notify ∷ ops))
      by (inl (some_sent, fits, (t, e, v', z'))) ih =
          let yes_taken : takes r w cap q msg ≡ true = ground arith in
          let (u, ran, v'', z'') =
            ih t (q ++ msg) (subst (λ m. HoldsQueue t r w (q ++ m)) (take_all msg) v') (z' ∙ z) in
          (u, rw (e, ran, yes_taken) refl, rw yes_taken v'', z'')
      by (inr (why, (t, e, v', z'))) ih =
          let refused : takes r w cap q msg ≡ false = ground arith in
          let (u, ran, v'', z'') = ih t q v' (z' ∙ z) in
          (u, rw (e, ran, refused) refl, rw refused v'', z'')
  shared_run-Refined (get size clear ∷ ops) s q v z =
      by (read_result s r w q size clear v) (shared_run-Refined ops)
    where
      by :
          ReadResult s r w q size clear (read s size clear)
          → ((t : SharedQueue) (q' : List ℕ)
              → HoldsQueue t r w q'
              → get_size t ≡ cap
              → Refined r w cap q' ops (shared_run t ops))
          → Refined r w cap q (get size clear ∷ ops) (shared_run s (get size clear ∷ ops))
      by (inl (some_read, fits, (t, e, v', z'))) ih =
          let given : gives r w cap q size ≡ true = ground arith in
          let (u, ran, v'', z'') = ih t (drop size q) v' (z' ∙ z) in
          (u, rw (e, ran, given) refl, rw given v'', z'')
      by (inr (why, (t, e, v', z'))) ih =
          let refused : gives r w cap q size ≡ false = ground arith in
          let (u, ran, v'', z'') = ih t q v' (z' ∙ z) in
          (u, rw (e, ran, refused) refl, rw refused v'', z'')

-- A queue's life: what init returned and asked, the replies while it was open, and what uninit asked.
abbrev pub Life : Type 0
Life = ℤ × List SysCall × List Reply × List SysCall

abbrev pub opened_life : List Op → ℤ × SharedQueue × List SysCall → Option Life
opened_life ops (negsuc n, s, calls) = some (negsuc n, calls, [], [])
opened_life ops (pos n, s, calls) = do
  (replies, u) ← shared_run s ops
  (let (ret, closed, closing) = uninit u in some (pos n, calls, replies, closing))

pub queue_life : Allocator → Option (ℕ × ℕ) → ℕ → Bool → List Op → Option Life
queue_life a piped size shared ops = opened_life ops (init a piped new_shared_queue size shared)

closing_lem :
    {u : SharedQueue} {r w : ℕ} {q : List ℕ}
    → HoldsQueue u (pos r) (pos w) q
    → (uninit u).2 ≡ close_fd (pos r) ∷ close_fd (pos w) ∷ []
unfolding uninit close_both
closing_lem v = rw (v.reader, v.writer) refl

-- Let pipe2 give two descriptors, and memory of the size asked for, which is a 64-bit number above 0. Then a new queue that is
-- initialised, used by any calls of write and read, and uninitialised behaves as a bounded queue of messages that starts empty: its capacity is a power of
-- two, at most the size and above half of it, every return value, byte and call on the pipe agrees, nothing faults, and in
-- the end both ends of the pipe are closed, once each. Or there is no memory: init returns -2, with both ends closed again.
pub queue_life_refines :
    (a : Allocator) (r w size : ℕ) (shared : Bool) (ops : List Op)
    → GivesSize a
    → 0 < size
    → size < u64_mod
    → ((cap : ℕ) × Capacity size cap
        × (queue_life a (some (r, w)) size shared ops
            ≡ some (
              pos 0,
              [],
              queue_run (pos r) (pos w) cap [] ops,
              close_fd (pos r) ∷ close_fd (pos w) ∷ [],
            )))
      ⊎ (queue_life a (some (r, w)) size shared ops
          ≡ some (negsuc 1, close_fd (pos r) ∷ close_fd (pos w) ∷ [], [], []))
unfolding queue_life new_shared_queue
queue_life_refines a r w size shared ops g p h =
    by (init a (some (r, w)) new_shared_queue size shared)
      (init_result a (some (r, w)) new_shared_queue size shared g new_closed p h)
  where
    new_closed : IsClosed new_shared_queue
    new_closed = (refl, refl)

    by :
        (out : ℤ × SharedQueue × List SysCall)
        → InitResult new_shared_queue (some (r, w)) size out
        → ((cap : ℕ) × Capacity size cap
            × (opened_life ops out
                ≡ some (
                  pos 0,
                  [],
                  queue_run (pos r) (pos w) cap [] ops,
                  close_fd (pos r) ∷ close_fd (pos w) ∷ [],
                )))
          ⊎ (opened_life ops out
              ≡ some (negsuc 1, close_fd (pos r) ∷ close_fd (pos w) ∷ [], [], []))
    by (code, s, calls) (inl (z, v, c, none_asked)) =
        let (u, ran, v', z') = shared_run-Refined (pos r) (pos w) (get_size s) ops s [] v refl in
        inl (get_size s, c, rw (z, none_asked, ran, closing_lem v') refl)
    by (code, s, calls) (inr (z, c, asked)) = inr (rw (z, asked) refl)
