-- ===== src/TcpClientMgr/Session/Tests.antt =====
-- A manager that connects to one of two hosts, and then closes a connection.
use ig_libs.Base.{ℕ, ◌+◌, ◌^◌, ℤ, pos, ◌<◌, ◌≡◌, refl, arith, none, some, List, [], ◌∷◌, length}
use ig_libs.Text.{split}
use ig_libs.TcpClient.{TcpClient, new_client, failed, close}
use ig_libs.TcpClient.Connect.{set_timeout}
use ig_libs.TcpClient.Connect.Recorded.{NetEvent, Answers, recorded, opened, closed}
use ig_libs.TcpClientMgr.{TcpClientMgr, new_manager, put_back, close_connection}
use ig_libs.TcpClientMgr.Hosts.{init, check_connection, uninit_in, add_hosts, add_host}
use ig_libs.TcpClientMgr.Hosts.Balance.{held_all}
use ig_libs.TcpClientMgr.Hosts.Targets.{always}
use ig_libs.TcpClientMgr.Session.{
  closes_connection, call, settled, Reach, start, later, inits, calls,
}
use ig_libs.TcpClientMgr.Session.Balance.{session_descriptors}

abbrev first_byte : List ℕ → ℕ
first_byte [] = 0
first_byte (c ∷ s) = c

abbrev answers : Answers
answers = record {
  to_socket = λ log. some (length log + 3);
  to_setsockopt = λ log. pos 0;
  to_pton = λ ip. some (first_byte ip);
  to_ntop = λ addr. some (addr ∷ []);
  to_connect = λ log. pos 0;
  to_getaddrinfo = λ log host port. some (first_byte host ∷ []);
  to_peek = λ log. failed;
  to_name = λ log. none;
}

-- "a:80;b:81"
abbrev addresses : List ℕ
addresses = b'a' ∷ b':' ∷ b'8' ∷ b'0' ∷ b';' ∷ b'b' ∷ b':' ∷ b'8' ∷ b'1' ∷ []

few : length (split addresses 59) < 2 ^ 32
unfolding split
few = omega arith

abbrev begun : ℤ × TcpClientMgr × List NetEvent
begun = init (recorded answers) always new_manager addresses (pos 0) 2 []

abbrev first : List TcpClient → TcpClient
first [] = new_client
first (c ∷ cs) = c

abbrev shut : TcpClientMgr
shut = put_back begun.1 0 (close (first begun.1.m_connections))

abbrev shut_log : List NetEvent
shut_log = settled (recorded answers) begun.1.m_connections shut.m_connections begun.2

closing : call begun.1 (closes_connection 0) ≡ some shut
unfolding call close_connection init add_hosts add_host set_timeout split
closing = refl

shut-Reach : Reach answers always (shut, shut_log)
shut-Reach =
    later (later start (inits addresses (pos 0) 2 few refl)) (calls (closes_connection 0) closing)

session_descriptors_example :
    (shut.m_conn_count ≡ length shut.m_connections)
    × (opened 3 shut_log ≡ closed 3 shut_log + held_all 3 shut.m_connections)
    × ((out : ℤ × TcpClientMgr × List NetEvent) × (check_connection (recorded answers) shut shut_log
          ≡ some out))
    × ((code : ℤ) × (m' : TcpClientMgr) × (log' : List NetEvent) × (uninit_in
            (recorded answers)
            shut
            shut_log
          ≡ some (code, m', log'))
        × (opened 3 log' ≡ closed 3 log'))
session_descriptors_example = session_descriptors answers always shut shut_log 3 shut-Reach
