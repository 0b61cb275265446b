-- ===== src/TcpClient/Receive.antt =====
-- TcpClient::recv over the kernel's answers and the bytes that the peer sends.
use ig_libs.Base.{
  ℕ, ◌+◌, ◌-◌, ◌^◌, ◌≤◌, ◌<◌, ◌≡◌, ◌⊎◌, inl, inr, refl, sym, ap, subst, ◌∙◌, arith, ℤ, pos, is_neg,
  true, false, Option, List, [], ◌∷◌, ◌++◌, take, drop, leb, ◌==◌, Bool-cases,
}
use ig_libs.Base.Tabulate.{take-add}
use ig_libs.TcpClient.{
  TcpClient, Answer, moved, again, interrupted, failed, Outcome, and_before, recv_loop, recv, close,
  to_int, tc_error, tc_timeout,
}
use ig_libs.TcpClient.Transfer.{Within, total, Ends, to_int_small}

-- What a client that stays open or not is left with, and the return value that says so.
abbrev pub Stopped : TcpClient → ℤ → TcpClient → Type 0
Stopped c code c' = ((code ≡ tc_timeout) × (c' ≡ c)) ⊎ ((code ≡ tc_error) × (c' ≡ close c))

-- How the loop of `recv` ends with `need` bytes to come: they all came; or it stopped, with fewer.
abbrev pub RecvDone : TcpClient → List ℕ → ℕ → ℕ → Outcome → Type 0
RecvDone c stream need got (code, c', bytes, rest) =
    ((code ≡ to_int (got + need)) × (c' ≡ c) × (bytes ≡ take need stream))
    ⊎ (Stopped c code c' × ((n : ℕ) × (n < need) × (bytes ≡ take n stream)))

then_rest :
    (c : TcpClient) (stream : List ℕ) (len got r : ℕ)
    → got + r ≤ len
    → (out : Option Outcome) → Ends (RecvDone c (drop r stream) (len - (got + r)) (got + r)) out
    → Ends (RecvDone c stream (len - got) got) (and_before (take r stream) out)
then_rest c stream len got r h out ((code, c', bytes, rest), e, inl (done, same, all)) = rw e (
  (code, c', take r stream ++ bytes, rest),
  refl,
  inl (
    done ∙ ap to_int (omega arith),
    same,
    ap (◌++◌ (take r stream)) all
        ∙ sym (take-add r (len - (got + r)) stream)
        ∙ ap (λ n. take n stream) (omega arith),
  ),
)
then_rest c stream len got r h out ((code, c', bytes, rest), e, inr (why, (n, few, part))) = rw e (
  (code, c', take r stream ++ bytes, rest),
  refl,
  inr (why, (r + n, omega arith, ap (◌++◌ (take r stream)) part ∙ sym (take-add r n stream))),
)

recv_loop-Ends :
    (c : TcpClient) (stream : List ℕ) (len got : ℕ) (answers : List Answer)
    → got < len
    → Within (len - got) answers
    → len - got ≤ total answers
    → Ends (RecvDone c stream (len - got) got) (recv_loop c len got stream answers)
unfolding recv_loop
recv_loop-Ends c stream len got [] h w t = absurd (omega arith)
recv_loop-Ends c stream len got (interrupted ∷ answers) h w t =
    recv_loop-Ends c stream len got answers h w t
recv_loop-Ends c stream len got (failed ∷ answers) h w t =
    ((tc_error, close c, [], answers), refl, inr (inr (refl, refl), (0, omega arith, refl)))
recv_loop-Ends c stream len got (again ∷ answers) h w t =
    ((tc_timeout, c, [], answers), refl, inr (inl (refl, refl), (0, omega arith, refl)))
recv_loop-Ends c stream len got (moved r ∷ answers) h w t = elim (Bool-cases (r == 0)) [
  | inl shut ↦
      rw shut
        ((tc_error, close c, [], answers), refl, inr (inr (refl, refl), (0, omega arith, refl)))
  | inr some_bytes ↦ elim (Bool-cases (leb len (got + r))) [
    | inl last ↦
        rw (some_bytes, last)
          (
            (to_int len, c, take r stream, answers),
            refl,
            inl (
              ap to_int {x = len} (omega arith),
              refl,
              ap (λ n. take n stream) {x = r} {y = len - got} (ground arith),
            ),
          )
    | inr more ↦
        let left : len - got - r ≡ len - (got + r) = omega arith in
        rw (some_bytes, more)
          (then_rest c stream len got r (omega arith)
            (recv_loop c len (got + r) (drop r stream) answers)
            (recv_loop-Ends c (drop r stream) len (got + r) answers (ground arith)
              (subst (λ n. Within n answers) left w.1) (omega arith)))
  ]
]

-- What recv() of `len` bytes did.
abbrev pub RecvResult : TcpClient → List ℕ → ℕ → Outcome → Type 0
RecvResult c stream len (code, c', bytes, rest) =
    ((code ≡ pos len) × (c' ≡ c) × (bytes ≡ take len stream))
    ⊎ (Stopped c code c' × ((n : ℕ) × (n < len) × (bytes ≡ take n stream)))

-- On an open client and for a length above 0 that an `int` holds, with a kernel that never gives more than
-- it is asked for and whose answers give enough bytes in all, recv() ends. It returns the length and the buffer
-- holds exactly the next bytes of the stream, in order, however they were cut up; or it returns 0 with the
-- client left open, or -1 with the socket closed, and in both cases fewer bytes than asked for were taken from
-- the front of the stream.
pub recv_result :
    (c : TcpClient) (stream : List ℕ) (len : ℕ) (answers : List Answer)
    → is_neg c.m_fd ≡ false
    → 0 < len
    → len < 2 ^ 31
    → Within len answers
    → len ≤ total answers
    → Ends (RecvResult c stream len) (recv c true len stream answers)
unfolding recv
recv_result c stream len answers open_fd p small w t =
    let some_len : (len == 0) ≡ false = ground arith in
    rw (open_fd, some_len)
      (finish (
        recv_loop-Ends c stream len 0 answers p
          (subst (λ n. Within n answers) {x = len} (omega arith) w) (omega arith)))
  where
    finish :
        Ends (RecvDone c stream (len - 0) 0) (recv_loop c len 0 stream answers)
        → Ends (RecvResult c stream len) (recv_loop c len 0 stream answers)
    finish (o, e, inl (done, same, all)) = (
      o,
      e,
      inl (
        done ∙ ap to_int {x = 0 + (len - 0)} {y = len} (omega arith) ∙ to_int_small len small,
        same,
        all ∙ ap (λ n. take n stream) (omega arith),
      ),
    )
    finish (o, e, inr (why, (n, few, part))) = (o, e, inr (why, (n, omega arith, part)))
