-- ===== src/TcpClientMgr/Hosts/Tests.antt =====
-- A list of three addresses, the second without a port; the kernel connects to the first host only.
use ig_libs.Base.{
  arith, ℕ, ◌+◌, ℤ, pos, negsuc, ◌≡◌, refl, none, some, List, [], ◌∷◌, length, map, ◌==◌,
  if◌then◌else◌,
}
use ig_libs.Text.{split}
use ig_libs.TcpClient.{failed}
use ig_libs.TcpClient.Connect.Recorded.{NetEvent, dials, Answers, recorded}
use ig_libs.TcpClientMgr.{new_manager}
use ig_libs.TcpClientMgr.Hosts.{init}
use ig_libs.TcpClientMgr.Hosts.Targets.{
  target, HostParts, taken, left_out, none_left, SendType, AllReady, always, init_targets,
}

abbrev to_connect : List NetEvent → ℤ
to_connect (dials fd addr port ∷ log) = if addr == 97 then pos 0 else negsuc 0
to_connect _ = negsuc 0

abbrev first_byte : List ℕ → ℕ
first_byte [] = 0
first_byte (c ∷ s) = c

abbrev answers : Answers
answers = record {
  to_socket = λ log. some (length log + 3);
  to_setsockopt = λ log. pos 0;
  to_pton = λ ip. some (first_byte ip);
  to_ntop = λ addr. some (addr ∷ []);
  to_connect = to_connect;
  to_getaddrinfo = λ log host port. some (first_byte host ∷ []);
  to_peek = λ log. failed;
  to_name = λ log. none;
}

-- "a:80;b;c:81"
abbrev addresses : List ℕ
addresses = 97 ∷ 58 ∷ 56 ∷ 48 ∷ 59 ∷ 98 ∷ 59 ∷ 99 ∷ 58 ∷ 56 ∷ 49 ∷ []

init_targets_example :
    let (code, m, log') = init (recorded answers) always new_manager addresses (pos 0) 2 [] in
    (code ≡ pos 0)
    × SendType (pos 0) m.m_send_type
    × HostParts (split addresses 59) (map target m.m_connections)
    × AllReady answers m.m_connections
init_targets_example = init_targets answers addresses (pos 0) 2 [] (λ e. cc)

two_of_three :
    HostParts (split addresses 59) ((97 ∷ [], 56 ∷ 48 ∷ []) ∷ (99 ∷ [], 56 ∷ 49 ∷ []) ∷ [])
unfolding split
two_of_three = taken refl (left_out (λ e. omega (arith, e)) (taken refl none_left))
