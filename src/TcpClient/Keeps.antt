-- ===== src/TcpClient/Keeps.antt =====
-- What a data call makes of its client: nothing, or close().
use ig_libs.Base.{
  ℕ, ◌+◌, ◌≡◌, ◌⊎◌, refl, inl, inr, ℤ, is_neg, Bool, true, false, not, ◌||◌, Option, none, some,
  List, [], ◌∷◌, take, drop, leb, ◌==◌, if◌then◌else◌,
}
use ig_libs.TcpClient.{
  TcpClient, Answer, moved, again, interrupted, failed, Outcome, and_before, close, send_loop, send,
  recv_loop, recv, writev_errno, writev_answer, writev, readv_answer, readv,
}

abbrev pub Keeps : TcpClient → TcpClient → Type 0
Keeps c c' = (c' ≡ c) ⊎ (c' ≡ close c)

abbrev pub IfKeeps : TcpClient → Option Outcome → Type 0
IfKeeps c none = Unit {0}
IfKeeps c (some (code, c', bytes, answers)) = Keeps c c'

-- A choice of which both parts keep.
IfKeeps-either :
    (c : TcpClient) (b : Bool) (x y : Option Outcome)
    → IfKeeps c x
    → IfKeeps c y
    → IfKeeps c (if b then x else y)
IfKeeps-either c true x y h k = h
IfKeeps-either c false x y h k = k

and_before-IfKeeps :
    (c : TcpClient) (bytes : List ℕ) (rest : Option Outcome)
    → IfKeeps c rest
    → IfKeeps c (and_before bytes rest)
and_before-IfKeeps c bytes none h = tt
and_before-IfKeeps c bytes (some (code, c', more, answers)) h = h

send_loop-IfKeeps :
    (c : TcpClient) (buf : List ℕ) (len sent : ℕ) (answers : List Answer)
    → IfKeeps c (send_loop c buf len sent answers)
unfolding send_loop
send_loop-IfKeeps c buf len sent [] = tt
send_loop-IfKeeps c buf len sent (moved r ∷ answers) =
    IfKeeps-either c (leb len (sent + r)) _ _ (inl refl) (
      and_before-IfKeeps c (take r (drop sent buf)) _
        (send_loop-IfKeeps c buf len (sent + r) answers))
send_loop-IfKeeps c buf len sent (again ∷ answers) =
    IfKeeps-either c (sent == 0) _ _ (inl refl) (inr refl)
send_loop-IfKeeps c buf len sent (interrupted ∷ answers) = send_loop-IfKeeps c buf len sent answers
send_loop-IfKeeps c buf len sent (failed ∷ answers) = inr refl

pub send-IfKeeps :
    (c : TcpClient) (buf : Option (List ℕ)) (len : ℕ) (answers : List Answer)
    → IfKeeps c (send c buf len answers)
unfolding send
send-IfKeeps c none len answers = inl refl
send-IfKeeps c (some buf) len answers =
    IfKeeps-either c (is_neg c.m_fd || len == 0) _ _ (inl refl)
      (send_loop-IfKeeps c buf len 0 answers)

recv_loop-IfKeeps :
    (c : TcpClient) (len got : ℕ) (stream : List ℕ) (answers : List Answer)
    → IfKeeps c (recv_loop c len got stream answers)
unfolding recv_loop
recv_loop-IfKeeps c len got stream [] = tt
recv_loop-IfKeeps c len got stream (moved r ∷ answers) = IfKeeps-either c (r == 0) _ _ (inr refl) (
    IfKeeps-either c (leb len (got + r)) _ _ (inl refl) (
      and_before-IfKeeps c (take r stream) _
        (recv_loop-IfKeeps c len (got + r) (drop r stream) answers)))
recv_loop-IfKeeps c len got stream (again ∷ answers) = inl refl
recv_loop-IfKeeps c len got stream (interrupted ∷ answers) =
    recv_loop-IfKeeps c len got stream answers
recv_loop-IfKeeps c len got stream (failed ∷ answers) = inr refl

pub recv-IfKeeps :
    (c : TcpClient) (has_buf : Bool) (len : ℕ) (stream : List ℕ) (answers : List Answer)
    → IfKeeps c (recv c has_buf len stream answers)
unfolding recv
recv-IfKeeps c has_buf len stream answers =
    IfKeeps-either c (is_neg c.m_fd || not has_buf || len == 0) _ _ (inl refl)
      (recv_loop-IfKeeps c len 0 stream answers)

Keeps-either :
    (c : TcpClient) (b : Bool) (x y : ℤ × TcpClient)
    → Keeps c x.1
    → Keeps c y.1
    → Keeps c (if b then x else y).1
Keeps-either c true x y h k = h
Keeps-either c false x y h k = k

writev_errno-Keeps : (c : TcpClient) (e : Answer) → Keeps c (writev_errno c e).1
writev_errno-Keeps c (moved n) = inr refl
writev_errno-Keeps c again = inl refl
writev_errno-Keeps c interrupted = inr refl
writev_errno-Keeps c failed = inr refl

writev_answer-Keeps :
    (c : TcpClient) (answer stale : Answer) → Keeps c (writev_answer c answer stale).1
writev_answer-Keeps c (moved n) stale =
    Keeps-either c (n == 0) _ _ (writev_errno-Keeps c stale) (inl refl)
writev_answer-Keeps c again stale = inl refl
writev_answer-Keeps c interrupted stale = inr refl
writev_answer-Keeps c failed stale = inr refl

pub writev-Keeps :
    (c : TcpClient) (iovcnt : Option ℕ) (answer stale : Answer)
    → Keeps c (writev c iovcnt answer stale).1
unfolding writev
writev-Keeps c none answer stale = inl refl
writev-Keeps c (some n) answer stale =
    Keeps-either c (is_neg c.m_fd || n == 0) _ _ (inl refl) (writev_answer-Keeps c answer stale)

readv_answer-Keeps : (c : TcpClient) (answer : Answer) → Keeps c (readv_answer c answer).1
readv_answer-Keeps c (moved n) = Keeps-either c (n == 0) _ _ (inr refl) (inl refl)
readv_answer-Keeps c again = inl refl
readv_answer-Keeps c interrupted = inr refl
readv_answer-Keeps c failed = inr refl

pub readv-Keeps :
    (c : TcpClient) (iovcnt : Option ℕ) (answer : Answer) → Keeps c (readv c iovcnt answer).1
unfolding readv
readv-Keeps c none answer = inl refl
readv-Keeps c (some n) answer =
    Keeps-either c (is_neg c.m_fd || n == 0) _ _ (inl refl) (readv_answer-Keeps c answer)
