-- ===== src/TcpClient/Tests.antt =====
-- Concrete transfers of TcpClient.
use ig_libs.Base.{ℕ, ◌≡◌, refl, arith, true, pos, List, [], ◌∷◌, some}
use ig_libs.TcpClient.{TcpClient, Answer, moved, again, interrupted, send, recv, recv_loop}
use ig_libs.TcpClient.Transfer.{Ends, SendResult, send_result}
use ig_libs.TcpClient.Receive.{RecvResult, recv_result}

abbrev pub open_client : TcpClient
open_client = record {
  m_fd = pos 7;
  m_str_host = [];
  m_ip = [];
  m_str_port = [];
  m_port = pos 80;
  m_timeout = 3000000;
}

-- Five bytes in two parts, with an interrupt between them.
abbrev pub parts : List Answer
parts = moved 2 ∷ interrupted ∷ moved 3 ∷ []

abbrev pub hello : List ℕ
hello = 104 ∷ 101 ∷ 108 ∷ 108 ∷ 111 ∷ []

send_result_example : Ends (SendResult open_client hello 5) (send open_client (some hello) 5 parts)
send_result_example =
    send_result open_client hello 5 parts refl (omega arith) (omega arith)
      (omega arith, (omega arith, tt)) (omega arith)

recv_result_example : Ends (RecvResult open_client hello 5) (recv open_client true 5 hello parts)
recv_result_example =
    recv_result open_client hello 5 parts refl (omega arith) (omega arith)
      (omega arith, (omega arith, tt)) (omega arith)

-- A peer that sends two bytes of the five and then nothing: the client stays open.
recv-late :
    recv open_client true 5 hello (moved 2 ∷ again ∷ [])
    ≡ some (pos 0, open_client, 104 ∷ 101 ∷ [], [])
unfolding recv recv_loop
recv-late = refl
