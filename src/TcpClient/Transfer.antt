-- ===== src/TcpClient/Transfer.antt =====
-- TcpClient::send and recv: total correctness over the kernel's answers.
use ig_libs.Base.{
  ℕ, ◌+◌, ◌-◌, ◌^◌, ◌≤◌, ◌<◌, ◌≡◌, ◌⊎◌, inl, inr, refl, sym, ap, subst, ◌∙◌, arith, pos, is_neg,
  false, Option, some, List, [], ◌∷◌, ◌++◌, take, drop, leb, ◌==◌, Bool-cases,
}
use ig_libs.Base.Tabulate.{take-add, drop-drop}
use ig_libs.TcpClient.{
  TcpClient, Answer, moved, again, interrupted, failed, Outcome, and_before, send_loop, send, close,
  to_int, tc_error, tc_timeout,
}

-- The kernel moves no more than it was asked to, `need` bytes being left.
abbrev pub Within : ℕ → List Answer → Type 0
Within need [] = Unit {0}
Within need (moved r ∷ answers) = (r ≤ need) × Within (need - r) answers
Within need (again ∷ answers) = Within need answers
Within need (interrupted ∷ answers) = Within need answers
Within need (failed ∷ answers) = Within need answers

-- The bytes that the answers move in all.
abbrev pub total : List Answer → ℕ
total [] = 0
total (moved r ∷ answers) = r + total answers
total (again ∷ answers) = total answers
total (interrupted ∷ answers) = total answers
total (failed ∷ answers) = total answers

-- How `send` ends: all of it went; or nothing did and the time ran out; or the socket is closed and less
-- than all of it went. What went is the front of the buffer.
abbrev pub SendDone : TcpClient → List ℕ → ℕ → ℕ → Outcome → Type 0
SendDone c buf need sent (code, c', bytes, rest) =
    ((code ≡ to_int (sent + need)) × (c' ≡ c) × (bytes ≡ take need buf))
    ⊎ (((sent ≡ 0) × (code ≡ tc_timeout) × (c' ≡ c) × (bytes ≡ []))
        ⊎ ((code ≡ tc_error) × (c' ≡ close c) × ((n : ℕ) × (n < need) × (bytes ≡ take n buf))))

abbrev pub Ends : (Outcome → Type 0) → Option Outcome → Type 0
Ends P out = (o : Outcome) × (out ≡ some o) × P o

-- The bytes of a call that moved `r`, and those of the calls behind it.
join_parts :
    (buf bytes : List ℕ) (sent r n : ℕ)
    → bytes ≡ take n (drop (sent + r) buf)
    → take r (drop sent buf) ++ bytes ≡ take (r + n) (drop sent buf)
join_parts buf bytes sent r n e =
    ap (◌++◌ (take r (drop sent buf))) (e ∙ ap (take n) (drop-drop sent r buf))
    ∙ sym (take-add r n (drop sent buf))

then_rest :
    (c : TcpClient) (buf : List ℕ) (len sent r : ℕ)
    → sent + r ≤ len
    → (out : Option Outcome)
    → Ends (SendDone c (drop (sent + r) buf) (len - (sent + r)) (sent + r)) out
    → Ends (SendDone c (drop sent buf) (len - sent) sent) (and_before (take r (drop sent buf)) out)
then_rest c buf len sent r h out ((code, c', bytes, rest), e, inl (done, same, all)) = rw e (
  (code, c', take r (drop sent buf) ++ bytes, rest),
  refl,
  inl (
    done ∙ ap to_int (omega arith),
    same,
    join_parts buf bytes sent r (len - (sent + r)) all
        ∙ ap (λ n. take n (drop sent buf)) (omega arith),
  ),
)
then_rest c buf len sent r h out
      ((code, c', bytes, rest), e, inr (inl (z, late, same, none_sent))) =
    rw e (
      (code, c', take r (drop sent buf) ++ bytes, rest),
      refl,
      inr (
          inl (
            omega arith,
            late,
            same,
            join_parts buf bytes sent r 0 none_sent
                ∙ ap (λ n. take n (drop sent buf)) {x = r + 0} {y = 0} (omega arith),
          )),
    )
then_rest c buf len sent r h out
      ((code, c', bytes, rest), e, inr (inr (bad, shut, (n, few, part)))) =
    rw e (
      (code, c', take r (drop sent buf) ++ bytes, rest),
      refl,
      inr (inr (bad, shut, (r + n, omega arith, join_parts buf bytes sent r n part))),
    )

send_loop-Ends :
    (c : TcpClient) (buf : List ℕ) (len sent : ℕ) (answers : List Answer)
    → sent < len
    → Within (len - sent) answers
    → len - sent ≤ total answers
    → Ends (SendDone c (drop sent buf) (len - sent) sent) (send_loop c buf len sent answers)
unfolding send_loop
send_loop-Ends c buf len sent [] h w t = absurd (omega arith)
send_loop-Ends c buf len sent (interrupted ∷ answers) h w t =
    send_loop-Ends c buf len sent answers h w t
send_loop-Ends c buf len sent (failed ∷ answers) h w t =
    ((tc_error, close c, [], answers), refl, inr (inr (refl, refl, (0, omega arith, refl))))
send_loop-Ends c buf len sent (again ∷ answers) h w t = elim (Bool-cases (sent == 0)) [
  | inl e ↦ rw e ((tc_timeout, c, [], answers), refl, inr (inl (ground arith, refl, refl, refl)))
  | inr e ↦
      rw e ((tc_error, close c, [], answers), refl, inr (inr (refl, refl, (0, omega arith, refl))))
]
send_loop-Ends c buf len sent (moved r ∷ answers) h w t = elim (Bool-cases (leb len (sent + r))) [
  | inl last ↦ rw last (
    (to_int len, c, take r (drop sent buf), answers),
    refl,
    inl (
      ap to_int {x = len} (omega arith),
      refl,
      ap (λ n. take n (drop sent buf)) {x = r} {y = len - sent} (ground arith),
    ),
  )
  | inr more ↦
      let left : len - sent - r ≡ len - (sent + r) = omega arith in
      rw more (
        then_rest c buf len sent r (omega arith) (send_loop c buf len (sent + r) answers) (
          send_loop-Ends c buf len (sent + r) answers (ground arith)
            (subst (λ n. Within n answers) left w.1) (omega arith)))
]

pub to_int_small : (n : ℕ) → n < 2 ^ 31 → to_int n ≡ pos n
unfolding to_int
to_int_small n h = ground arith

-- What send() of `len` bytes did.
abbrev pub SendResult : TcpClient → List ℕ → ℕ → Outcome → Type 0
SendResult c buf len (code, c', bytes, rest) =
    ((code ≡ pos len) × (c' ≡ c) × (bytes ≡ take len buf))
    ⊎ (((code ≡ tc_timeout) × (c' ≡ c) × (bytes ≡ []))
        ⊎ ((code ≡ tc_error) × (c' ≡ close c) × ((n : ℕ) × (n < len) × (bytes ≡ take n buf))))

-- On an open client and for a length above 0 that an `int` holds, with a kernel that never moves more than
-- it is asked to and whose answers move enough bytes in all, send() ends. It returns the length and exactly the
-- buffer went out, in order and once, whatever partial writes and interrupts there were; or it returns 0 and
-- nothing went out; or it returns -1 with the socket closed, and a shorter front of the buffer went out.
pub send_result :
    (c : TcpClient) (buf : List ℕ) (len : ℕ) (answers : List Answer)
    → is_neg c.m_fd ≡ false
    → 0 < len
    → len < 2 ^ 31
    → Within len answers
    → len ≤ total answers
    → Ends (SendResult c buf len) (send c (some buf) len answers)
unfolding send
send_result c buf len answers open_fd p small w t =
    let some_len : (len == 0) ≡ false = ground arith in
    rw (open_fd, some_len)
      (finish (
        send_loop-Ends c buf len 0 answers p
          (subst (λ n. Within n answers) {x = len} (omega arith) w) (omega arith)))
  where
    finish :
        Ends (SendDone c (drop 0 buf) (len - 0) 0) (send_loop c buf len 0 answers)
        → Ends (SendResult c buf len) (send_loop c buf len 0 answers)
    finish (o, e, inl (done, same, all)) = (
      o,
      e,
      inl (
        done ∙ ap to_int {x = 0 + (len - 0)} {y = len} (omega arith) ∙ to_int_small len small,
        same,
        all ∙ ap (λ n. take n buf) (omega arith),
      ),
    )
    finish (o, e, inr (inl (z, late, same, nothing))) = (o, e, inr (inl (late, same, nothing)))
    finish (o, e, inr (inr (bad, shut, (n, few, part)))) =
        (o, e, inr (inr (bad, shut, (n, omega arith, part))))
