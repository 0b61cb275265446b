-- ===== src/TcpClient.antt =====
-- tcp_client.h and tcp_client.cpp: a blocking client. What the kernel and the resolver answer is an
-- argument of each method: the data calls take the answers to come, and wait (`none`) when there are no more.
pub mod Transfer
pub mod Receive
pub mod Keeps
pub mod Connect
mod Tests
use ig_libs.Base.{
  ℕ, suc, ◌+◌, ◌-◌, ◌*◌, ◌/◌, ◌%◌, ◌^◌, min, ℤ, pos, negsuc, sub_ℕ, is_neg, eqb_ℤ, ltb_ℤ, Bool,
  true, false, not, ◌&&◌, ◌||◌, Option, none, some, List, [], ◌∷◌, ◌++◌, length, take, drop, leb,
  ltb, ◌==◌, if◌then◌else◌,
}
use ig_libs.Text.{is_all_digit, atoi}

pub record TcpClient : Type 0 where
  pub m_fd : ℤ
  pub m_str_host : List ℕ
  pub m_ip : List ℕ
  pub m_str_port : List ℕ
  pub m_port : ℤ
  pub m_timeout : ℕ

abbrev pub tc_error : ℤ
tc_error = negsuc 0

abbrev pub tc_timeout : ℤ
tc_timeout = pos 0

abbrev pub new_client : TcpClient
new_client = record {
  m_fd = negsuc 0;
  m_str_host = [];
  m_ip = [];
  m_str_port = [];
  m_port = pos 0;
  m_timeout = 3000000;
}

-- A `size_t` returned as an `int`.
pub to_int : ℕ → ℤ
to_int n = let low = n % 2 ^ 32 in if ltb low (2 ^ 31) then pos low else sub_ℕ low (2 ^ 32)

-- `::shutdown` and `::close` of the descriptor, if there is one, which is then forgotten.
pub close : TcpClient → TcpClient
close c = if is_neg c.m_fd then c else record c { m_fd = negsuc 0 }

unfoldable pub is_alive : TcpClient → Bool
is_alive c = not (is_neg c.m_fd)

-- The answer to a data call: bytes moved, or -1 with EAGAIN or EWOULDBLOCK, EINTR, or another error.
pub data Answer : Type 0 where
  moved : ℕ → Answer
  again interrupted failed : Answer

-- A transfer's end: the return value, the client, the bytes that went over and the answers left.
abbrev pub Outcome : Type 0
Outcome = ℤ × TcpClient × List ℕ × List Answer

-- The outcome of the calls that follow one that moved `bytes`.
abbrev pub and_before : List ℕ → Option Outcome → Option Outcome
and_before bytes none = none
and_before bytes (some (code, c, more, answers)) = some (code, c, bytes ++ more, answers)

-- The loop of `send`, with `sent` bytes gone.
pub send_loop : TcpClient → List ℕ → ℕ → ℕ → List Answer → Option Outcome
send_loop c buf len sent [] = none
send_loop c buf len sent (moved r ∷ answers) =
    let bytes = take r (drop sent buf) in
    let rest = send_loop c buf len (sent + r) answers in
    if leb len (sent + r) then some (to_int len, c, bytes, answers) else and_before bytes rest
send_loop c buf len sent (again ∷ answers) =
    if sent == 0 then some (tc_timeout, c, [], answers) else some (tc_error, close c, [], answers)
send_loop c buf len sent (interrupted ∷ answers) = send_loop c buf len sent answers
send_loop c buf len sent (failed ∷ answers) = some (tc_error, close c, [], answers)

-- `buf` is `none` for NULL.
pub send : TcpClient → Option (List ℕ) → ℕ → List Answer → Option Outcome
send c none len answers = some (tc_error, c, [], answers)
send c (some buf) len answers =
    if is_neg c.m_fd || len == 0
    then some (tc_error, c, [], answers)
    else send_loop c buf len 0 answers

-- The loop of `recv`. `stream` is what the peer sends, from the next byte on.
pub recv_loop : TcpClient → ℕ → ℕ → List ℕ → List Answer → Option Outcome
recv_loop c len got stream [] = none
recv_loop c len got stream (moved r ∷ answers) =
    let bytes = take r stream in
    let rest = recv_loop c len (got + r) (drop r stream) answers in
    if r == 0
    then some (tc_error, close c, [], answers)
    else (if leb len (got + r) then some (to_int len, c, bytes, answers) else and_before bytes rest)
recv_loop c len got stream (again ∷ answers) = some (tc_timeout, c, [], answers)
recv_loop c len got stream (interrupted ∷ answers) = recv_loop c len got stream answers
recv_loop c len got stream (failed ∷ answers) = some (tc_error, close c, [], answers)

-- `has_buf` is false for a NULL buffer.
pub recv : TcpClient → Bool → ℕ → List ℕ → List Answer → Option Outcome
recv c has_buf len stream answers =
    if is_neg c.m_fd || not has_buf || len == 0
    then some (tc_error, c, [], answers)
    else recv_loop c len 0 stream answers

-- What `writev` makes of `errno`: `again` stands for EAGAIN and EWOULDBLOCK.
abbrev writev_errno : TcpClient → Answer → ℤ × TcpClient
writev_errno c again = (tc_timeout, c)
writev_errno c _ = (tc_error, close c)

abbrev writev_answer : TcpClient → Answer → Answer → ℤ × TcpClient
writev_answer c (moved n) stale = if n == 0 then writev_errno c stale else (to_int n, c)
writev_answer c e stale = writev_errno c e

-- One `::writev`. A count of 0 is treated by the value that `errno` has then, `stale`.
pub writev : TcpClient → Option ℕ → Answer → Answer → ℤ × TcpClient
unfolding close to_int
writev c none answer stale = (tc_error, c)
writev c (some iovcnt) answer stale =
    if is_neg c.m_fd || iovcnt == 0 then (tc_error, c) else writev_answer c answer stale

abbrev readv_answer : TcpClient → Answer → ℤ × TcpClient
readv_answer c (moved n) = if n == 0 then (tc_error, close c) else (to_int n, c)
readv_answer c again = (tc_timeout, c)
readv_answer c interrupted = (tc_error, close c)
readv_answer c failed = (tc_error, close c)

-- One `::readv`.
pub readv : TcpClient → Option ℕ → Answer → ℤ × TcpClient
unfolding close to_int
readv c none answer = (tc_error, c)
readv c (some iovcnt) answer =
    if is_neg c.m_fd || iovcnt == 0 then (tc_error, c) else readv_answer c answer

-- `::recv(m_fd, test, 1, MSG_PEEK | MSG_DONTWAIT)`
abbrev peek_alive : Answer → Bool
peek_alive (moved n) = not (n == 0)
peek_alive again = true
peek_alive interrupted = true
peek_alive failed = false

pub is_real_alive : TcpClient → Answer → Bool
is_real_alive c answer = if is_neg c.m_fd then false else peek_alive answer
