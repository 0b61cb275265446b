-- ===== src/TcpClientMgr/Selection.antt =====
-- TcpClientMgr::select_connection and get_available_connection.
use native.Mathlib.Nat.{mod-lt}
use ig_libs.Base.{
  ℕ, zero, suc, ◌+◌, ◌%◌, ◌^◌, ◌<◌, ◌≡◌, ◌⊎◌, inl, inr, refl, sym, ap, subst, ◌∙◌, arith, Bool,
  true, false, Option, none, some, List, [], ◌∷◌, length, get_elem?, ◌==◌, Bool-cases,
}
use ig_libs.TcpClient.{TcpClient, is_alive}
use ig_libs.TcpClientMgr.{
  TcpClientMgr, next_index, select_loop, select_found, get_available_connection,
}

-- There are connections, as many as are counted and no more than an `int` tells apart, and the index is an `unsigned int`.
pub record IsConsistent (m : TcpClientMgr) : Type 0 where
  pub some_count : 0 < m.m_conn_count
  pub int_count : m.m_conn_count < 2 ^ 31
  pub counted : m.m_conn_count ≡ length m.m_connections
  pub index_small : m.m_conn_index < 2 ^ 32

-- The place of the `k`-th try from now.
abbrev pub place : TcpClientMgr → ℕ → ℕ
place m k = (m.m_conn_index + k) % 2 ^ 32 % m.m_conn_count

-- The manager after `k` tries.
abbrev pub advance : TcpClientMgr → ℕ → TcpClientMgr
advance m k = record m { m_conn_index = (m.m_conn_index + k) % 2 ^ 32 }

-- There is a connection at `i`, and `is_alive` says `b` of it.
abbrev pub Stands : TcpClientMgr → ℕ → Bool → Type 0
Stands m i b = (c : TcpClient) × (get_elem? m.m_connections i ≡ some c) × (is_alive c ≡ b)

-- The first try of `left` that meets a live connection, or none.
abbrev pub FirstAlive : TcpClientMgr → ℕ → Option ℕ × TcpClientMgr → Type 0
FirstAlive m left (found, m') =
    ((k : ℕ) × (k < left)
      × (found ≡ some (place m k))
      × (m' ≡ advance m (suc k))
      × Stands m (place m k) true
      × ((j : ℕ) → j < k → Stands m (place m j) false))
    ⊎ ((found ≡ none) × (m' ≡ advance m left) × ((j : ℕ) → j < left → Stands m (place m j) false))

present {ℓ} :
    {A : Type ℓ} → (xs : List A) (i : ℕ) → i < length xs → (x : A) × (get_elem? xs i ≡ some x)
present [] i h = absurd (omega (arith, h))
present (x ∷ xs) zero h = (x, refl)
present (x ∷ xs) (suc i) h = present xs i (omega arith)

next-IsConsistent : {m : TcpClientMgr} → IsConsistent m → IsConsistent (next_index m)
unfolding next_index
next-IsConsistent v = record {
  some_count = v.some_count;
  int_count = v.int_count;
  counted = v.counted;
  index_small = omega arith;
}

place-next : (m : TcpClientMgr) (k : ℕ) → place (next_index m) k ≡ place m (suc k)
unfolding next_index
place-next m k = ap (λ i. i % m.m_conn_count) (omega arith)

advance-next : (m : TcpClientMgr) (k : ℕ) → advance (next_index m) k ≡ advance m (suc k)
unfolding next_index
advance-next m k = ap (λ i. record m { m_conn_index = i }) (omega arith)

advance-zero : {m : TcpClientMgr} → IsConsistent m → advance m 0 ≡ m
advance-zero {m = m} v = ap (λ i. record m { m_conn_index = i }) (omega (arith, v.index_small))

place-zero : {m : TcpClientMgr} → IsConsistent m → place m 0 ≡ m.m_conn_index % m.m_conn_count
place-zero {m = m} v = ap (λ i. i % m.m_conn_count) (omega (arith, v.index_small))

place-present :
    {m : TcpClientMgr}
    → IsConsistent m
    → (c : TcpClient) × (get_elem? m.m_connections (place m 0) ≡ some c)
place-present {m = m} v =
    present m.m_connections (place m 0)
      (subst (λ n. place m 0 < n) v.counted (mod-lt ((m.m_conn_index + 0) % 2 ^ 32) v.some_count))

next-Stands :
    (m : TcpClientMgr) (k : ℕ) (b : Bool)
    → Stands (next_index m) (place (next_index m) k) b
    → Stands m (place m (suc k)) b
unfolding next_index
next-Stands m k b s = subst (λ i. Stands m i b) (place-next m k) s

dead_before :
    (m : TcpClientMgr) (k : ℕ)
    → Stands m (place m 0) false
    → ((j : ℕ) → j < k → Stands (next_index m) (place (next_index m) j) false)
    → (j : ℕ) → j < suc k
    → Stands m (place m j) false
dead_before m k first rest zero h = first
dead_before m k first rest (suc j) h = next-Stands m j false (rest j (omega arith))

FirstAlive-next :
    (m : TcpClientMgr) (left : ℕ) (out : Option ℕ × TcpClientMgr)
    → Stands m (place m 0) false
    → FirstAlive (next_index m) left out
    → FirstAlive m (suc left) out
FirstAlive-next m left (found, m') dead (inl (k, h, e, moved, alive, before)) = inl (
  suc k,
  omega arith,
  e ∙ ap some (place-next m k),
  moved ∙ advance-next m (suc k),
  next-Stands m k true alive,
  dead_before m k dead before,
)
FirstAlive-next m left (found, m') dead (inr (e, moved, before)) =
    inr (e, moved ∙ advance-next m left, dead_before m left dead before)

pub select_loop-FirstAlive :
    (m : TcpClientMgr) (left : ℕ)
    → IsConsistent m
    → (out : Option ℕ × TcpClientMgr) × (select_loop m left ≡ some out) × FirstAlive m left out
unfolding select_loop select_found next_index
select_loop-FirstAlive m zero v =
    ((none, m), refl, inr (refl, sym (advance-zero v), λ j h. absurd (omega (arith, h))))
select_loop-FirstAlive m (suc left) v =
    let (c, at) = place-present v in
    let here : get_elem? m.m_connections (m.m_conn_index % m.m_conn_count) ≡ some c =
      subst (λ i. get_elem? m.m_connections i ≡ some c) (place-zero v) at in
    let (out, e, first) = select_loop-FirstAlive (next_index m) left (next-IsConsistent v) in
    elim (Bool-cases (is_alive c)) [
      | inl alive ↦
          rw (here, alive)
            (
              (some (m.m_conn_index % m.m_conn_count), next_index m),
              refl,
              inl (
                0,
                omega arith,
                ap some (sym (place-zero v)),
                refl,
                (c, at, alive),
                λ j h. absurd (omega (arith, h)),
              ),
            )
      | inr dead ↦ rw (here, dead) (out, e, FirstAlive-next m left out (c, at, dead) first)
    ]

-- On a consistent manager the search ends and never looks outside the vector: its tries go round the
-- connections from the index on, each one once unless the index wraps on the way, and it gives the first one met
-- that is alive, or none if all the tries met dead ones; the index is left behind the last try.
pub get_available_connection_result :
    (m : TcpClientMgr)
    → IsConsistent m
    → (out : Option ℕ × TcpClientMgr) × (get_available_connection m ≡ some out)
      × FirstAlive m m.m_conn_count out
unfolding get_available_connection
get_available_connection_result m v =
    let some_count : (m.m_conn_count == 0) ≡ false = ground (arith, v.some_count) in
    rw some_count (select_loop-FirstAlive m m.m_conn_count v)
