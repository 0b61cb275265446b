-- ===== src/TcpClientMgr.antt =====
-- tcp_client_mgr.h and tcp_client_mgr.cpp: connections taken in turn. A pointer to a connection is its
-- place in m_connections; `none` stands for an access outside the vector, or a data call that waits.
pub mod Selection
pub mod Reach
pub mod Transfer
pub mod Hosts
pub mod Session
mod Tests
use ig_libs.Base.{
  ℕ, zero, suc, ◌+◌, ◌%◌, ◌^◌, ℤ, pos, negsuc, Bool, true, false, Option, none, some, List, [], ◌∷◌,
  get_elem?, set, ltb, ◌==◌, if◌then◌else◌,
}
use ig_libs.TcpClient.{
  TcpClient, Answer, Outcome, close, is_alive, to_int, send as client_send, recv as client_recv,
  writev as client_writev, readv as client_readv,
}

pub record TcpClientMgr : Type 0 where
  pub m_connections : List TcpClient
  pub m_conn_count : ℕ
  pub m_conn_index : ℕ
  pub m_send_type : ℤ

abbrev pub new_manager : TcpClientMgr
new_manager = record { m_connections = []; m_conn_count = 0; m_conn_index = 0; m_send_type = pos 0 }

-- `delete` closes each connection as it goes.
pub uninit : TcpClientMgr → TcpClientMgr
uninit m = record m { m_connections = []; m_conn_count = 0; m_conn_index = 0 }

-- `m_conn_index++`, an `unsigned int`.
pub next_index : TcpClientMgr → TcpClientMgr
next_index m = record m { m_conn_index = (m.m_conn_index + 1) % 2 ^ 32 }

pub select_found :
    ℕ
    → TcpClientMgr
    → Option (Option ℕ × TcpClientMgr)
    → Option TcpClient
    → Option (Option ℕ × TcpClientMgr)
select_found id m rest none = none
select_found id m rest (some c) = if is_alive c then some (some id, m) else rest

-- The loop of the two functions below, with its rounds left; the place found, if one is.
pub select_loop : TcpClientMgr → ℕ → Option (Option ℕ × TcpClientMgr)
select_loop m zero = some (none, m)
select_loop m (suc left) =
    let id = m.m_conn_index % m.m_conn_count in
    select_found id (next_index m) (select_loop (next_index m) left) (get_elem? m.m_connections id)

abbrev pub returned : Option (Option ℕ × TcpClientMgr) → Option (ℤ × TcpClientMgr)
returned none = none
returned (some (none, m)) = some (negsuc 0, m)
returned (some (some id, m)) = some (to_int id, m)

pub select_connection : TcpClientMgr → Option (ℤ × TcpClientMgr)
select_connection m =
    if m.m_conn_count == 0 then some (negsuc 0, m) else returned (select_loop m m.m_conn_count)

pub get_available_connection : TcpClientMgr → Option (Option ℕ × TcpClientMgr)
get_available_connection m =
    if m.m_conn_count == 0 then some (none, m) else select_loop m m.m_conn_count

-- What a method of the connection at `id` makes of the manager: its place is written again.
abbrev pub put_back : TcpClientMgr → ℕ → TcpClient → TcpClientMgr
put_back m id c = record m { m_connections = set m.m_connections id c }

-- How a data call ends: as the client's, with the manager in the client's place.
abbrev pub MgrOutcome : Type 0
MgrOutcome = ℤ × TcpClientMgr × List ℕ × List Answer

abbrev pub held_back : TcpClientMgr → ℕ → Option Outcome → Option MgrOutcome
held_back m id none = none
held_back m id (some (code, c, bytes, answers)) = some (code, put_back m id c, bytes, answers)

abbrev pub on_connection :
    TcpClientMgr → ℕ → (TcpClient → Option Outcome) → Option TcpClient → Option MgrOutcome
on_connection m id call none = none
on_connection m id call (some c) = held_back m id (call c)

-- The four data calls check the connection's number as this does, before the client's own call.
pub by_number : TcpClientMgr → ℕ → List Answer → (TcpClient → Option Outcome) → Option MgrOutcome
by_number m conn_id answers call =
    if ltb conn_id m.m_conn_count
    then on_connection m conn_id call (get_elem? m.m_connections conn_id)
    else some (negsuc 1, m, [], answers)

-- The same calls without a number take the next connection that is alive.
pub on_selected :
    List Answer → (TcpClient → Option Outcome) → Option (ℤ × TcpClientMgr) → Option MgrOutcome
on_selected answers call none = none
on_selected answers call (some (negsuc e, m)) = some (negsuc 0, m, [], answers)
on_selected answers call (some (pos conn_id, m)) = by_number m conn_id answers call

pub send_to : TcpClientMgr → ℕ → Option (List ℕ) → ℕ → List Answer → Option MgrOutcome
send_to m conn_id buf len answers = by_number m conn_id answers (λ c. client_send c buf len answers)

pub send : TcpClientMgr → Option (List ℕ) → ℕ → List Answer → Option MgrOutcome
send m buf len answers =
    on_selected answers (λ c. client_send c buf len answers) (select_connection m)

pub recv_from : TcpClientMgr → ℕ → Bool → ℕ → List ℕ → List Answer → Option MgrOutcome
recv_from m conn_id has_buf len stream answers =
    by_number m conn_id answers (λ c. client_recv c has_buf len stream answers)

pub recv : TcpClientMgr → Bool → ℕ → List ℕ → List Answer → Option MgrOutcome
recv m has_buf len stream answers =
    on_selected answers (λ c. client_recv c has_buf len stream answers) (select_connection m)

abbrev at_once : ℤ × TcpClient → Option Outcome
at_once (code, c) = some (code, c, [], [])

pub writev_to : TcpClientMgr → ℕ → Option ℕ → Answer → Answer → Option MgrOutcome
writev_to m conn_id iovcnt answer stale =
    by_number m conn_id [] (λ c. at_once (client_writev c iovcnt answer stale))

pub writev : TcpClientMgr → Option ℕ → Answer → Answer → Option MgrOutcome
writev m iovcnt answer stale =
    on_selected [] (λ c. at_once (client_writev c iovcnt answer stale)) (select_connection m)

pub readv_from : TcpClientMgr → ℕ → Option ℕ → Answer → Option MgrOutcome
readv_from m conn_id iovcnt answer =
    by_number m conn_id [] (λ c. at_once (client_readv c iovcnt answer))

pub readv : TcpClientMgr → Option ℕ → Answer → Option MgrOutcome
readv m iovcnt answer =
    on_selected [] (λ c. at_once (client_readv c iovcnt answer)) (select_connection m)

abbrev pub close_found : TcpClientMgr → ℕ → Option TcpClient → Option TcpClientMgr
close_found m conn_id none = none
close_found m conn_id (some c) = some (put_back m conn_id (close c))

pub close_connection : TcpClientMgr → ℕ → Option TcpClientMgr
close_connection m conn_id =
    if ltb conn_id m.m_conn_count
    then close_found m conn_id (get_elem? m.m_connections conn_id)
    else some m
