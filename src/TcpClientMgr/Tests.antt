-- ===== src/TcpClientMgr/Tests.antt =====
-- A manager with three connections, of which only the second is alive.
use ig_libs.Base.{ℕ, ◌-◌, ◌^◌, ◌<◌, ◌≡◌, refl, arith, true, pos, negsuc, List, [], ◌∷◌, some}
use ig_libs.TcpClient.{TcpClient, new_client, is_alive, Answer, moved, interrupted}
use ig_libs.TcpClient.Transfer.{SendResult}
use ig_libs.TcpClientMgr.{
  TcpClientMgr, select_connection, select_loop, select_found, next_index, send,
}
use ig_libs.TcpClientMgr.Selection.{IsConsistent, Stands}
use ig_libs.TcpClientMgr.Reach.{select_connection_finds}
use ig_libs.TcpClientMgr.Transfer.{OnOne, send_selected}

abbrev open_client : TcpClient
open_client = record {
  m_fd = pos 7;
  m_str_host = [];
  m_ip = [];
  m_str_port = [];
  m_port = pos 80;
  m_timeout = 3000000;
}

abbrev parts : List Answer
parts = moved 2 ∷ interrupted ∷ moved 3 ∷ []

abbrev hello : List ℕ
hello = 104 ∷ 101 ∷ 108 ∷ 108 ∷ 111 ∷ []

abbrev managed : ℕ → TcpClientMgr
managed index = record {
  m_connections = new_client ∷ open_client ∷ new_client ∷ [];
  m_conn_count = 3;
  m_conn_index = index;
  m_send_type = pos 0;
}

managed-IsConsistent : IsConsistent (managed 5)
managed-IsConsistent = record {
  some_count = omega arith;
  int_count = omega arith;
  counted = refl;
  index_small = omega arith;
}

select_connection_finds_example :
    (id : ℕ) × (m' : TcpClientMgr) × (select_connection (managed 5) ≡ some (pos id, m'))
    × (id < 3)
    × Stands (managed 5) id true
unfolding is_alive
select_connection_finds_example =
    select_connection_finds (managed 5) 1 managed-IsConsistent (omega arith)
      (open_client, refl, refl)

send_selected_example :
    OnOne (managed 5) (λ c. SendResult c hello 5) (send (managed 5) (some hello) 5 parts)
send_selected_example =
    send_selected (managed 5) hello 5 parts managed-IsConsistent (omega arith) (omega arith)
      (omega arith, (omega arith, tt)) (omega arith)

-- From the index 2^32 - 2 the tries are 2, 0, 0: the index wraps, and the connection 1 is never tried.
wraps_past : select_connection (managed (2 ^ 32 - 2)) ≡ some (negsuc 0, managed 1)
unfolding select_connection select_loop select_found next_index is_alive
wraps_past = refl
