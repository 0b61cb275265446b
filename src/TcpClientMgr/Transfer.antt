-- ===== src/TcpClientMgr/Transfer.antt =====
-- TcpClientMgr::send and recv on a connection taken in turn.
use native.Mathlib.Nat.{mod-lt}
use mathlib.Core.Bool.{false≢true}
use ig_libs.Base.{
  ℕ, suc, ◌+◌, ◌%◌, ◌^◌, ◌≤◌, ◌<◌, ◌≡◌, ◌⊎◌, inl, inr, refl, sym, ap, ◌∙◌, arith, ℤ, pos, negsuc,
  is_neg, true, false, not, Option, some, List, [], get_elem?, set, ltb, ◌==◌, Bool-cases,
}
use ig_libs.TcpClient.{
  TcpClient, Answer, Outcome, is_alive, to_int, send as client_send, recv as client_recv,
}
use ig_libs.TcpClient.Transfer.{to_int_small, Within, total, Ends, SendResult, send_result}
use ig_libs.TcpClient.Receive.{RecvResult, recv_result}
use ig_libs.TcpClientMgr.{
  TcpClientMgr, MgrOutcome, by_number, on_selected, returned, select_connection, send, recv,
}
use ig_libs.TcpClientMgr.Selection.{
  IsConsistent, FirstAlive, Stands, advance, place, select_loop-FirstAlive,
}

-- How a call on a selected connection ends. Either all connections are dead and it returns -1; or one that
-- is alive made the client's call, which ended as `P` says, and only its place in the vector changed.
abbrev pub OnOne : TcpClientMgr → (TcpClient → Outcome → Type 0) → Option MgrOutcome → Type 0
OnOne m P out =
    ((k : ℕ) × (id : ℕ) × (c : TcpClient) × (c' : TcpClient) × (code : ℤ) × (bytes : List ℕ)
      × (rest : List Answer) × (get_elem? m.m_connections id ≡ some c)
      × (is_alive c ≡ true)
      × P c (code, c', bytes, rest)
      × (out
          ≡ some (
            code,
            record (advance m k) { m_connections = set m.m_connections id c' },
            bytes,
            rest,
          )))
    ⊎ ((answers : List Answer) × (out ≡ some (negsuc 0, advance m m.m_conn_count, [], answers))
        × ((j : ℕ) → j < m.m_conn_count → Stands m (place m j) false))

on_selected-OnOne :
    {P : TcpClient → Outcome → Type 0} (m : TcpClientMgr) (answers : List Answer)
    (call : TcpClient → Option Outcome)
    → IsConsistent m
    → ((c : TcpClient) → is_alive c ≡ true → Ends (P c) (call c))
    → OnOne m P (on_selected answers call (select_connection m))
unfolding select_connection on_selected by_number
on_selected-OnOne {P = P} m answers call v works =
    let some_count : (m.m_conn_count == 0) ≡ false = ground (arith, v.some_count) in
    let (out, e, first) = select_loop-FirstAlive m m.m_conn_count v in
    rw (some_count, e) (given out first)
  where
    given :
        (out : Option ℕ × TcpClientMgr)
        → FirstAlive m m.m_conn_count out
        → OnOne m P (on_selected answers call (returned (some out)))
    given (found, m') (inl (k, few, e, moved, (c, at, lives), before)) =
        let low : place m k < m.m_conn_count =
          mod-lt ((m.m_conn_index + k) % 2 ^ 32) v.some_count in
        let number : to_int (place m k) ≡ pos (place m k) =
          to_int_small (place m k) (omega (arith, low, v.int_count)) in
        let in_range : ltb (place m k) m.m_conn_count ≡ true = ground (arith, low) in
        let ((code, c', bytes, rest), done, p) = works c lives in
        rw (e, moved, number, in_range, at, done)
          (inl (suc k, place m k, c, c', code, bytes, rest, at, lives, p, refl))
    given (found, m') (inr (e, moved, before)) = rw (e, moved) (inr (answers, refl, before))

alive-open : (c : TcpClient) → is_alive c ≡ true → is_neg c.m_fd ≡ false
unfolding is_alive
alive-open c e = elim (Bool-cases (is_neg c.m_fd)) [
  | inl neg ↦ absurd (false≢true (sym (ap not neg) ∙ e))
  | inr open_fd ↦ open_fd
]

-- On a consistent manager, for a length above 0 that an `int` holds and with a kernel that never moves more
-- than it is asked to and moves enough in all, send() without a number ends: it returns -1 and every connection
-- that it tried, `m_conn_count` of them, was dead; or it sends on one that was alive, with exactly the outcomes
-- of the client's send, and leaves every other connection as it was.
pub send_selected :
    (m : TcpClientMgr) (buf : List ℕ) (len : ℕ) (answers : List Answer)
    → IsConsistent m
    → 0 < len
    → len < 2 ^ 31
    → Within len answers
    → len ≤ total answers
    → OnOne m (λ c. SendResult c buf len) (send m (some buf) len answers)
unfolding send
send_selected m buf len answers v p small w t =
    on_selected-OnOne m answers (λ c. client_send c (some buf) len answers) v
      (λ c lives. send_result c buf len answers (alive-open c lives) p small w t)

-- On a consistent manager, for a length above 0 that an `int` holds and with a kernel that never gives more
-- than it is asked for and gives enough in all, recv() without a number ends: it returns -1 and every connection that it
-- tried was dead; or it receives on one that was alive, with exactly the outcomes of the client's recv, and
-- leaves every other connection as it was.
pub recv_selected :
    (m : TcpClientMgr) (stream : List ℕ) (len : ℕ) (answers : List Answer)
    → IsConsistent m
    → 0 < len
    → len < 2 ^ 31
    → Within len answers
    → len ≤ total answers
    → OnOne m (λ c. RecvResult c stream len) (recv m true len stream answers)
unfolding recv
recv_selected m stream len answers v p small w t =
    on_selected-OnOne m answers (λ c. client_recv c true len stream answers) v
      (λ c lives. recv_result c stream len answers (alive-open c lives) p small w t)
