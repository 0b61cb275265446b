-- ===== src/TcpClient/Connect/Tests.antt =====
-- A host with two addresses, of which the second answers.
use ig_libs.Base.{
  arith, ℕ, ◌+◌, ℤ, pos, negsuc, ◌≡◌, ◌≢◌, refl, Option, none, some, List, [], ◌∷◌, ◌==◌,
  if◌then◌else◌, length,
}
use ig_libs.TcpClient.{new_client, again}
use ig_libs.TcpClient.Connect.{close_in, connect_to}
use ig_libs.TcpClient.Connect.Recorded.{
  NetEvent, dials, Answers, recorded, opened, closed, same_fd, got, freed,
}
use ig_libs.TcpClient.Connect.Outcomes.{AfterHost}
use ig_libs.TcpClient.Connect.Result.{connect_host_result}
use ig_libs.TcpClient.Connect.Runs.{
  Op, connects_to, reconnects, closes, run, client_descriptors, client_results_freed,
}

abbrev to_connect : List NetEvent → ℤ
to_connect (dials fd addr port ∷ log) = if addr == 20 then pos 0 else negsuc 0
to_connect _ = negsuc 0

abbrev answers : Answers
answers = record {
  to_socket = λ log. some (length log + 3);
  to_setsockopt = λ log. pos 0;
  to_pton = λ ip. if length ip == 1 then some 10 else some 20;
  to_ntop = λ addr. if addr == 10 then some (49 ∷ []) else some (50 ∷ 51 ∷ []);
  to_connect = to_connect;
  to_getaddrinfo = λ log host port. some (10 ∷ 20 ∷ []);
  to_peek = λ log. again;
  to_name = λ log. none;
}

abbrev host : List ℕ
host = 104 ∷ []

abbrev port : List ℕ
port = 56 ∷ 48 ∷ []

connect_host_result_example :
    AfterHost answers [] host port (connect_to (recorded answers) new_client host port [])
connect_host_result_example = connect_host_result answers new_client host port [] refl

abbrev ops : List Op
ops = connects_to host port ∷ reconnects ∷ closes ∷ connects_to host port ∷ []

client_descriptors_example :
    let (c, log) = run answers new_client [] ops in
    let (c', log') = close_in (recorded answers) c log in
    (opened 4 log ≡ closed 4 log + same_fd 4 c.m_fd) × (opened 4 log' ≡ closed 4 log')
client_descriptors_example = client_descriptors answers ops 4

names_all :
    (addr : ℕ)
    → ◌≢◌ {A = Option (List ℕ)} (if addr == 10 then some (49 ∷ []) else some (50 ∷ 51 ∷ [])) none
names_all addr e = ground arith

client_results_freed_example : let (c, log) = run answers new_client [] ops in got log ≡ freed log
client_results_freed_example = client_results_freed answers names_all ops
