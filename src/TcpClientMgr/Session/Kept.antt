-- ===== src/TcpClientMgr/Session/Kept.antt =====
-- The connections behind a data call: each is as it was, or closed.
use mathlib.Core.Option.{some-injective}
use ig_libs.Base.{
  subst, ℕ, zero, suc, ◌%◌, ◌≡◌, refl, sym, ◌∙◌, inl, inr, ℤ, pos, negsuc, Bool, true, false,
  Bool-cases, Option, none, some, List, [], ◌∷◌, get_elem?, set, ltb, ◌==◌, if◌then◌else◌,
}
use ig_libs.TcpClient.{TcpClient, Answer, Outcome, close, is_alive}
use ig_libs.TcpClient.Keeps.{Keeps, IfKeeps, send-IfKeeps, recv-IfKeeps, writev-Keeps, readv-Keeps}
use ig_libs.TcpClientMgr.{
  TcpClientMgr, next_index, select_found, select_loop, returned, select_connection, held_back,
  on_connection, by_number, on_selected, send_to, send, recv_from, recv, writev_to, writev,
  readv_from, readv, close_found, close_connection,
}
use ig_libs.TcpClientMgr.Session.{
  Call, sends_to, sends, recvs_from, recvs, writevs_to, writevs, readvs_from, readvs,
  closes_connection, manager_of, call,
}

pub data AllKeep : List TcpClient → List TcpClient → Type 0 where
  none_left : AllKeep [] []
  one_more :
      {c c' : TcpClient} {cs cs' : List TcpClient}
      → Keeps c c'
      → AllKeep cs cs'
      → AllKeep (c ∷ cs) (c' ∷ cs')

all_same : (cs : List TcpClient) → AllKeep cs cs
all_same [] = none_left
all_same (c ∷ cs) = one_more (inl refl) (all_same cs)

set-AllKeep :
    (cs : List TcpClient) (i : ℕ) (c c' : TcpClient)
    → get_elem? cs i ≡ some c
    → Keeps c c'
    → AllKeep cs (set cs i c')
set-AllKeep [] i c c' e k = none_left
set-AllKeep (x ∷ cs) zero c c' e k =
    one_more (subst (λ y. Keeps y c') (sym (some-injective x c e)) k) (all_same cs)
set-AllKeep (x ∷ cs) (suc i) c c' e k = one_more (inl refl) (set-AllKeep cs i c c' e k)

-- The vector's clients are kept, and they are counted as before.
pub record MgrKeeps (m m' : TcpClientMgr) : Type 0 where
  pub conns : AllKeep m.m_connections m'.m_connections
  pub count : m'.m_conn_count ≡ m.m_conn_count

abbrev IfMgrKeeps : TcpClientMgr → Option TcpClientMgr → Type 0
IfMgrKeeps m none = Unit {0}
IfMgrKeeps m (some m') = MgrKeeps m m'

-- The choice of a connection moves the index only.
abbrev SameVector : TcpClientMgr → TcpClientMgr → Type 0
SameVector m m' = (m'.m_connections ≡ m.m_connections) × (m'.m_conn_count ≡ m.m_conn_count)

abbrev IfFound : TcpClientMgr → Option (Option ℕ × TcpClientMgr) → Type 0
IfFound m none = Unit {0}
IfFound m (some (id, m')) = SameVector m m'

select_loop-IfFound : (m : TcpClientMgr) (left : ℕ) → IfFound m (select_loop m left)
unfolding select_loop select_found next_index
select_loop-IfFound m zero = (refl, refl)
select_loop-IfFound m (suc left) =
    by (get_elem? m.m_connections (m.m_conn_index % m.m_conn_count))
      (select_loop-IfFound (next_index m) left)
  where
    either :
        (b : Bool) (x y : Option (Option ℕ × TcpClientMgr))
        → IfFound m x
        → IfFound m y
        → IfFound m (if b then x else y)
    either true x y h k = h
    either false x y h k = k

    moved_on : (r : Option (Option ℕ × TcpClientMgr)) → IfFound (next_index m) r → IfFound m r
    moved_on none h = tt
    moved_on (some (id, m')) h = h

    by :
        (found : Option TcpClient)
        → IfFound (next_index m) (select_loop (next_index m) left)
        → IfFound m (
            select_found
              (m.m_conn_index % m.m_conn_count)
              (next_index m)
              (select_loop (next_index m) left)
              found)
    by none h = tt
    by (some c) h =
        either (is_alive c) (some (some (m.m_conn_index % m.m_conn_count), next_index m))
          (select_loop (next_index m) left) (refl, refl)
          (moved_on (select_loop (next_index m) left) h)

by_number-MgrKeeps :
    (m : TcpClientMgr) (conn_id : ℕ) (answers : List Answer) (f : TcpClient → Option Outcome)
    → ((c : TcpClient) → IfKeeps c (f c))
    → IfMgrKeeps m (manager_of (by_number m conn_id answers f))
unfolding by_number
by_number-MgrKeeps m conn_id answers f h = elim (Bool-cases (ltb conn_id m.m_conn_count)) [
  | inr outside ↦ rw outside (record { conns = all_same m.m_connections; count = refl })
  | inl inside ↦ rw inside (by (get_elem? m.m_connections conn_id) refl)
]
  where
    by :
        (found : Option TcpClient)
        → get_elem? m.m_connections conn_id ≡ found
        → IfMgrKeeps m (manager_of (on_connection m conn_id f found))
    by none e = tt
    by (some c) e = held (f c) (h c)
      where
        held :
            (out : Option Outcome)
            → IfKeeps c out
            → IfMgrKeeps m (manager_of (held_back m conn_id out))
        held none k = tt
        held (some (code, c', bytes, rest)) k = record {
          conns = set-AllKeep m.m_connections conn_id c c' e k;
          count = refl;
        }

same-MgrKeeps :
    (m m' : TcpClientMgr) (out : Option TcpClientMgr)
    → SameVector m m'
    → IfMgrKeeps m' out
    → IfMgrKeeps m out
same-MgrKeeps m m' none same h = tt
same-MgrKeeps m m' (some m'') (conns, count) h = record {
  conns = subst (λ cs. AllKeep cs m''.m_connections) conns h.conns;
  count = h.count ∙ count;
}

abbrev IfSelected : TcpClientMgr → Option (ℤ × TcpClientMgr) → Type 0
IfSelected m none = Unit {0}
IfSelected m (some (id, m')) = SameVector m m'

select_connection-IfSelected : (m : TcpClientMgr) → IfSelected m (select_connection m)
unfolding select_connection
select_connection-IfSelected m = elim (Bool-cases (m.m_conn_count == 0)) [
  | inl empty ↦ rw empty (refl, refl)
  | inr some_there ↦
      rw some_there (by (select_loop m m.m_conn_count) (select_loop-IfFound m m.m_conn_count))
]
  where
    by : (r : Option (Option ℕ × TcpClientMgr)) → IfFound m r → IfSelected m (returned r)
    by none h = tt
    by (some (none, m')) h = h
    by (some (some id, m')) h = h

on_selected-MgrKeeps :
    (m : TcpClientMgr) (answers : List Answer) (f : TcpClient → Option Outcome)
    → ((c : TcpClient) → IfKeeps c (f c))
    → IfMgrKeeps m (manager_of (on_selected answers f (select_connection m)))
unfolding on_selected
on_selected-MgrKeeps m answers f h = by (select_connection m) (select_connection-IfSelected m)
  where
    by :
        (r : Option (ℤ × TcpClientMgr))
        → IfSelected m r
        → IfMgrKeeps m (manager_of (on_selected answers f r))
    by none same = tt
    by (some (negsuc e, m')) same =
        same-MgrKeeps m m' (some m') same
          (record { conns = all_same m'.m_connections; count = refl })
    by (some (pos conn_id, m')) same =
        same-MgrKeeps m m' _ same (by_number-MgrKeeps m' conn_id answers f h)

close_connection-MgrKeeps :
    (m : TcpClientMgr) (conn_id : ℕ) → IfMgrKeeps m (close_connection m conn_id)
unfolding close_connection
close_connection-MgrKeeps m conn_id = elim (Bool-cases (ltb conn_id m.m_conn_count)) [
  | inr outside ↦ rw outside (record { conns = all_same m.m_connections; count = refl })
  | inl inside ↦ rw inside (by (get_elem? m.m_connections conn_id) refl)
]
  where
    by :
        (found : Option TcpClient)
        → get_elem? m.m_connections conn_id ≡ found
        → IfMgrKeeps m (close_found m conn_id found)
    by none e = tt
    by (some c) e = record {
      conns = set-AllKeep m.m_connections conn_id c (close c) e (inr refl);
      count = refl;
    }

pub call-MgrKeeps :
    (m : TcpClientMgr) (c : Call) {m' : TcpClientMgr} → call m c ≡ some m' → MgrKeeps m m'
unfolding call send_to send recv_from recv writev_to writev readv_from readv
call-MgrKeeps m c e = subst (IfMgrKeeps m) e (by c)
  where
    by : (c : Call) → IfMgrKeeps m (call m c)
    by (sends_to conn_id buf len answers) =
        by_number-MgrKeeps m conn_id answers _ (λ c. send-IfKeeps c buf len answers)
    by (sends buf len answers) =
        on_selected-MgrKeeps m answers _ (λ c. send-IfKeeps c buf len answers)
    by (recvs_from conn_id has_buf len stream answers) =
        by_number-MgrKeeps m conn_id answers _ (λ c. recv-IfKeeps c has_buf len stream answers)
    by (recvs has_buf len stream answers) =
        on_selected-MgrKeeps m answers _ (λ c. recv-IfKeeps c has_buf len stream answers)
    by (writevs_to conn_id iovcnt answer stale) =
        by_number-MgrKeeps m conn_id [] _ (λ c. writev-Keeps c iovcnt answer stale)
    by (writevs iovcnt answer stale) =
        on_selected-MgrKeeps m [] _ (λ c. writev-Keeps c iovcnt answer stale)
    by (readvs_from conn_id iovcnt answer) =
        by_number-MgrKeeps m conn_id [] _ (λ c. readv-Keeps c iovcnt answer)
    by (readvs iovcnt answer) = on_selected-MgrKeeps m [] _ (λ c. readv-Keeps c iovcnt answer)
    by (closes_connection conn_id) = close_connection-MgrKeeps m conn_id
