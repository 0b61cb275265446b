-- ===== src/Queue/Client/Bells.antt =====
-- shared_queue.cpp: the bytes in the pipe of a queue of messages of one length.
use native.Mathlib.Nat.{mul-suc, mul-zero, lt_of_mul-lt-mul_left}
use ig_libs.Base.{
  ℕ, zero, suc, ◌+◌, ◌-◌, ◌*◌, ◌≤◌, ◌<◌, ℤ, ◌≡◌, inl, inr, refl, sym, ap, ◌∙◌, arith, true, some,
  List, [], ◌∷◌, ◌++◌, length, length-append, length-drop, drop, Bool-cases, ltb, lt→ltb,
  if◌then◌else◌,
}
use ig_libs.Queue.{
  SharedQueue, SysCall, close_fd, read_byte, write_byte, get_size, get_readable_size,
}
use ig_libs.Queue.Laws.{HoldsQueue, get_readable_size_lem}
use ig_libs.Queue.Client.{
  Op, put, get, Reply, takes, gives, queue_run, queue_left, shared_run, shared_run-Refined,
}

-- The bytes in a pipe that has room for `room` and that neither end waits for.
abbrev pub piped : ℕ → ℕ → List SysCall → ℕ
piped room n [] = n
piped room n (write_byte fd ∷ calls) = piped room (if ltb n room then suc n else n) calls
piped room n (read_byte fd ∷ calls) = piped room (n - 1) calls
piped room n (close_fd fd ∷ calls) = piped room n calls

abbrev pub all_calls : List Reply → List SysCall
all_calls [] = []
all_calls ((ret, bytes, calls) ∷ replies) = calls ++ all_calls replies

-- Every message has the one length, and every call the default arguments.
abbrev pub IsUniform : ℕ → List Op → Type 0
IsUniform k [] = Unit {0}
IsUniform k (put msg notify ∷ ops) = (length msg ≡ k) × (notify ≡ true) × IsUniform k ops
IsUniform k (get size clear ∷ ops) = (size ≡ k) × (clear ≡ true) × IsUniform k ops

module _ (r w : ℤ) (cap k room : ℕ) (some_bytes : 0 < k) (enough : cap ≤ k * room) where
  piped-queue_run :
      (ops : List Op) (q : List ℕ) (n : ℕ)
      → IsUniform k ops
      → length q ≡ k * n
      → length q ≤ cap
      → k * piped room n (all_calls (queue_run r w cap q ops)) ≡ length (queue_left r w cap q ops)
  unfolding queue_run queue_left
  piped-queue_run [] q n u e l = sym e
  piped-queue_run (put msg notify ∷ ops) q n (same, on, u) e l =
      elim (Bool-cases (takes r w cap q msg)) [
        | inr refused ↦ rw refused (piped-queue_run ops q n u e l)
        | inl taken ↦
            let fits : length (q ++ msg) ≤ cap = ground (arith, length-append q msg) in
            let next : k * suc n ≡ k * n + k = mul-suc k n in
            let room_left : ltb n room ≡ true =
              lt→ltb n room (lt_of_mul-lt-mul_left k (omega (arith, length-append q msg, next))) in
            rw (taken, on, room_left)
              (piped-queue_run ops (q ++ msg) (suc n) u (omega (arith, length-append q msg, next))
                fits)
      ]
  piped-queue_run (get size clear ∷ ops) q n (same, on, u) e l =
      elim (Bool-cases (gives r w cap q size)) [
        | inr refused ↦ rw refused (piped-queue_run ops q n u e l)
        | inl given ↦
            rw (given, on)
              (piped-queue_run ops (drop size q) (n - 1) u (less n e)
                (omega (arith, length-drop size q)))
      ]
    where
      less : (n : ℕ) → length q ≡ k * n → length (drop size q) ≡ k * (n - 1)
      less zero e = omega (arith, length-drop size q, mul-zero k)
      less (suc n) e =
          let rest : length (drop size q) ≡ k * n =
            omega (arith, length-drop size q, mul-suc k n, same) in
          let before : n ≡ suc n - 1 = omega arith in rest ∙ ap (λ m. k * m) before

-- Let all messages have one length, which is not 0, let write notify and read clear as they do by default, and let the pipe have room for a byte
-- for each message that fits in the queue. If the pipe holds a byte for each queued message, then it does so after any calls: the
-- bytes in the pipe times the length are the bytes that can be read.
pub queue_bells :
    (s : SharedQueue) (r w : ℤ) (q : List ℕ) (k room n : ℕ) (ops : List Op)
    → HoldsQueue s r w q
    → 0 < k
    → get_size s ≤ k * room
    → length q ≡ k * n
    → IsUniform k ops
    → (replies : List Reply) × (u : SharedQueue) × (shared_run s ops ≡ some (replies, u))
      × (k * piped room n (all_calls replies) ≡ get_readable_size u)
unfolding get_size
queue_bells s r w q k room n ops v p enough e uniform =
    let (u, ran, v', z) = shared_run-Refined r w (get_size s) ops s q v refl in
    (
      queue_run r w (get_size s) q ops,
      u,
      ran,
      piped-queue_run r w (get_size s) k room p enough ops q n uniform e v.ring.fits
          ∙ sym (get_readable_size_lem v'),
    )
