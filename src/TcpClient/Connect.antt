-- ===== src/TcpClient/Connect.antt =====
-- tcp_client.h and tcp_client.cpp: connecting. The kernel and the resolver are a parameter; each call takes
-- the state that they keep. A timeout is not negative.
pub mod Recorded
pub mod Balance
pub mod Hosts
pub mod Runs
pub mod Outcomes
pub mod Result
mod Tests
use ig_libs.Base.{
  ℕ, ◌*◌, ◌/◌, ◌%◌, ℤ, pos, negsuc, is_neg, eqb_ℤ, ltb_ℤ, Bool, true, false, not, ◌&&◌, ◌||◌,
  Option, none, some, List, [], ◌∷◌, if◌then◌else◌,
}
use ig_libs.Text.{is_all_digit, atoi}
use ig_libs.TcpClient.{TcpClient, tc_error, close, Answer, is_real_alive}

pub data SockOpt : Type 0 where
  rcvtimeo sndtimeo : SockOpt

-- A resolver's address is a number; `inet_pton` and `inet_ntop` give `none` where they fail.
pub record Net (W : Type 0) : Type 0 where
  pub socket : W → ℤ × W
  pub setsockopt : ℤ → SockOpt → ℕ → ℕ → W → ℤ × W
  pub inet_pton : List ℕ → Option ℕ
  pub inet_ntop : ℕ → Option (List ℕ)
  pub connect_fd : ℤ → ℕ → ℤ → W → ℤ × W
  pub shutdown : ℤ → W → W
  pub close_fd : ℤ → W → W
  pub getaddrinfo : List ℕ → List ℕ → W → Option (List ℕ) × W
  pub freeaddrinfo : W → W
  pub peek : ℤ → W → Answer × W
  pub getsockname : ℤ → W → Option (ℕ × ℕ)

abbrev is_empty : List ℕ → Bool
is_empty [] = true
is_empty (c ∷ s) = false

-- `port < 0 || port > 65535`
abbrev pub out_of_range : ℤ → Bool
out_of_range port = is_neg port || ltb_ℤ (pos 65535) port

module _ {W : Type 0} (net : Net W) where
  open net use {
    socket, setsockopt, inet_pton, inet_ntop, connect_fd, shutdown, close_fd, getaddrinfo,
    freeaddrinfo, peek, getsockname,
  }

  -- `close` with its system calls.
  pub close_in : TcpClient → W → TcpClient × W
  close_in c w = (close c, if is_neg c.m_fd then w else close_fd c.m_fd (shutdown c.m_fd w))

  -- The system calls of `close`, if a data call made it on this client.
  pub settled_one : TcpClient → TcpClient → W → W
  settled_one c c' w =
      if not (is_neg c.m_fd) && is_neg c'.m_fd then close_fd c.m_fd (shutdown c.m_fd w) else w

  -- The two timeouts, the second one only if the first was taken.
  pub set_timeouts : ℤ → ℕ → W → Bool × W
  set_timeouts fd timeout w =
      let (r, w') = setsockopt fd rcvtimeo (timeout / 1000000) (timeout % 1000000) w in
      if not (eqb_ℤ r (pos 0))
      then (false, w')
      else (let (r', w'') = setsockopt fd sndtimeo (timeout / 1000000) (timeout % 1000000) w' in
          (eqb_ℤ r' (pos 0), w''))

  pub give_up : TcpClient → W → ℤ × TcpClient × W
  give_up c w = let (c', w') = close_in c w in (tc_error, c', w')

  pub address_read : TcpClient → W → Option ℕ → ℤ × TcpClient × W
  address_read c w none = give_up c w
  address_read c w (some addr) =
      let (ret, w') = connect_fd c.m_fd addr c.m_port w in
      if eqb_ℤ ret (pos 0) then (c.m_fd, c, w') else give_up c w'

  pub socket_made : TcpClient → W → ℤ × TcpClient × W
  socket_made c w =
      let (ok, w') = set_timeouts c.m_fd c.m_timeout w in
      if ok then address_read c w' (inet_pton c.m_ip) else give_up c w'

  -- `connect()`, to the address that the client has.
  pub connect : TcpClient → W → ℤ × TcpClient × W
  connect c w =
      if not (is_neg c.m_fd)
      then (c.m_fd, c, w)
      else (if is_empty c.m_ip || out_of_range c.m_port
          then (tc_error, c, w)
          else (let (fd, w') = socket w in
              let opened : TcpClient = record c { m_fd = fd } in
              if eqb_ℤ fd tc_error then (tc_error, opened, w') else socket_made opened w'))

  -- A turn of the loop over the results of the resolver, and those behind it.
  pub named :
      TcpClient → Option (List ℕ) → W → (TcpClient → W → ℤ × TcpClient × W) → ℤ × TcpClient × W
  named c none w rest = (tc_error, c, w)
  named c (some dst_ip) w rest =
      let (r, c', w') = connect (record c { m_ip = dst_ip }) w in
      if eqb_ℤ r tc_error then rest c' w' else (c'.m_fd, c', freeaddrinfo w')

  pub try_results : TcpClient → List ℕ → W → ℤ × TcpClient × W
  try_results c [] w = (negsuc 0, c, freeaddrinfo w)
  try_results c (addr ∷ results) w = named c (inet_ntop addr) w (λ c' w'. try_results c' results w')

  pub resolved : TcpClient → Option (List ℕ) × W → ℤ × TcpClient × W
  resolved c (none, w) = (tc_error, c, w)
  resolved c (some results, w) = try_results c results w

  pub connect_host : TcpClient → W → ℤ × TcpClient × W
  connect_host c w =
      if is_empty c.m_str_host || is_empty c.m_str_port || not (is_all_digit c.m_str_port)
      then (tc_error, c, w)
      else (let c' : TcpClient = record c { m_port = atoi c.m_str_port } in
          if out_of_range c'.m_port
          then (tc_error, c', w)
          else resolved c' (getaddrinfo c'.m_str_host c'.m_str_port w))

  -- `connect(host, port)`
  pub connect_to : TcpClient → List ℕ → List ℕ → W → ℤ × TcpClient × W
  connect_to c host port w = connect_host (record c { m_str_host = host; m_str_port = port }) w

  -- `is_real_alive` with its look at the socket.
  pub look : TcpClient → W → Bool × W
  look c w =
      if is_neg c.m_fd
      then (false, w)
      else (let (answer, w') = peek c.m_fd w in (is_real_alive c answer, w'))

  pub reconnect : TcpClient → W → ℤ × TcpClient × W
  reconnect c w =
      let (alive, w') = look c w in
      if alive
      then (pos 0, c, w')
      else (let (c', w'') = close_in c w' in
          let (r, c'', w''') = connect_host c' w'' in (pos 0, c'', w'''))

  -- In seconds.
  unfoldable pub set_timeout : TcpClient → ℕ → W → ℤ × TcpClient × W
  set_timeout c t w =
      let c' : TcpClient = record c { m_timeout = t * 1000000 } in
      if is_neg c.m_fd
      then (pos 0, c', w)
      else (let (ok, w') = set_timeouts c.m_fd c'.m_timeout w in
          (if ok then pos 0 else tc_error, c', w'))

  -- The return value, and what `ip` and `port` are set to, in network byte order.
  pub get_ip_port : TcpClient → W → ℤ × Option (ℕ × ℕ)
  get_ip_port c w =
      let name = getsockname c.m_fd w in
      if is_neg c.m_fd
      then (negsuc 0, none)
      else (elim name [ none ↦ negsuc 0 | some p ↦ pos 0 ], name)
