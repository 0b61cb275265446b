-- ===== src/TcpClientMgr/Reach.antt =====
-- TcpClientMgr::select_connection reaches every connection within one round.
use native.Mathlib.Nat.{mod-lt}
use mathlib.Core.Bool.{false≢true}
use mathlib.Core.Option.{some-injective, none-ne-some}
use ig_libs.Base.{
  ℕ, zero, suc, ◌+◌, ◌-◌, ◌%◌, ◌^◌, ◌≤◌, ◌<◌, ◌≡◌, ◌⊎◌, inl, inr, sym, ap, subst, ◌∙◌, arith, pos,
  true, false, Option, some, List, [], ◌∷◌, length, get_elem?, leb, leb→le, ◌==◌, Bool-cases,
}
use ig_libs.Base.Tabulate.{mod_step}
use ig_libs.TcpClient.{TcpClient, is_alive}
use ig_libs.TcpClient.Transfer.{to_int_small}
use ig_libs.TcpClientMgr.{TcpClientMgr, returned, select_connection, get_available_connection}
use ig_libs.TcpClientMgr.Selection.{IsConsistent, place, Stands, FirstAlive, select_loop-FirstAlive}

-- A place is reached from any other in fewer steps than there are places.
steps_to : (x n i : ℕ) → i < n → (k : ℕ) × (k < n) × ((x + k) % n ≡ i)
steps_to x n i h = elim (Bool-cases (leb (x % n) i)) [
  | inl e ↦
      let le = leb→le (x % n) i e in
      (
        i - x % n,
        omega arith,
        first (i - x % n) (mod_step x (i - x % n) n (omega arith) (omega arith)) (omega arith),
      )
  | inr e ↦
      let small : x % n < n = mod-lt x (omega arith) in
      let gt : i < x % n = ground arith in
      (
        i + n - x % n,
        omega arith,
        second (i + n - x % n) (mod_step x (i + n - x % n) n (omega arith) (omega arith))
            (omega arith),
      )
]
  where
    first :
        (k : ℕ)
        → ((x % n + k < n) × ((x + k) % n ≡ x % n + k))
          ⊎ ((n ≤ x % n + k) × ((x + k) % n ≡ x % n + k - n))
        → x % n + k ≡ i
        → (x + k) % n ≡ i
    first k (inl (l, e)) s = omega arith
    first k (inr (l, e)) s = absurd (omega arith)

    second :
        (k : ℕ)
        → ((x % n + k < n) × ((x + k) % n ≡ x % n + k))
          ⊎ ((n ≤ x % n + k) × ((x + k) % n ≡ x % n + k - n))
        → x % n + k ≡ i + n
        → (x + k) % n ≡ i
    second k (inl (l, e)) s = absurd (omega arith)
    second k (inr (l, e)) s = omega arith

place_reached :
    (m : TcpClientMgr) (i : ℕ)
    → m.m_conn_index + m.m_conn_count ≤ 2 ^ 32
    → i < m.m_conn_count
    → (k : ℕ) × (k < m.m_conn_count) × (place m k ≡ i)
place_reached m i h l =
    let (k, few, e) = steps_to m.m_conn_index m.m_conn_count i l in
    let low : (m.m_conn_index + k) % 2 ^ 32 ≡ m.m_conn_index + k = omega arith in
    (k, few, ap (λ x. x % m.m_conn_count) low ∙ e)

not_both : (m : TcpClientMgr) (i : ℕ) → Stands m i true → Stands m i false → ⊥
not_both m i (c, at, alive) (c', at', dead) =
    false≢true (sym dead ∙ ap is_alive (some-injective c' c (sym at' ∙ at)) ∙ alive)

-- On a consistent manager whose index does not wrap within one round, if some connection is alive then
-- select_connection() gives the number of one that is.
pub select_connection_finds :
    (m : TcpClientMgr) (i : ℕ)
    → IsConsistent m
    → m.m_conn_index + m.m_conn_count ≤ 2 ^ 32
    → Stands m i true
    → (id : ℕ) × (m' : TcpClientMgr) × (select_connection m ≡ some (pos id, m'))
      × (id < m.m_conn_count)
      × Stands m id true
unfolding select_connection get_available_connection
select_connection_finds m i v h alive =
    let some_count : (m.m_conn_count == 0) ≡ false = ground (arith, v.some_count) in
    let (out, e, first) = select_loop-FirstAlive m m.m_conn_count v in
    rw (some_count, e) (given out first)
  where
    inside : (xs : List TcpClient) (j : ℕ) (c : TcpClient) → get_elem? xs j ≡ some c → j < length xs
    inside [] j c e = absurd (none-ne-some c e)
    inside (x ∷ xs) zero c e = omega arith
    inside (x ∷ xs) (suc j) c e = omega (arith, inside xs j c e)

    given :
        (out : Option ℕ × TcpClientMgr)
        → FirstAlive m m.m_conn_count out
        → (id : ℕ) × (m' : TcpClientMgr) × (returned (some out) ≡ some (pos id, m'))
          × (id < m.m_conn_count)
          × Stands m id true
    given (found, m') (inl (k, few, e, moved, lives, before)) =
        let low : place m k < m.m_conn_count =
          mod-lt ((m.m_conn_index + k) % 2 ^ 32) v.some_count in
        rw e (
          place m k,
          m',
          ap (λ z. some (z, m')) (to_int_small (place m k) (omega (arith, low, v.int_count))),
          low,
          lives,
        )
    given (found, m') (inr (e, moved, before)) =
        let (c, at, lives) = alive in
        let (k, few, p) =
          place_reached m i h
            (subst (λ n. i < n) (sym v.counted) (inside m.m_connections i c at)) in
        absurd (not_both m i alive (subst (λ n. Stands m n false) p (before k few)))
