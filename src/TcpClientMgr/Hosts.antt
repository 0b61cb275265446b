-- ===== src/TcpClientMgr/Hosts.antt =====
-- TcpClientMgr's init, check_connection and uninit, with the calls that their clients make. `granted` says whether a
-- `new (std::nothrow)` gives memory; `none` stands for an access outside the vector.
pub mod Balance
pub mod Runs
pub mod Targets
mod Tests
use ig_libs.Base.{
  ℕ, zero, suc, ◌+◌, ◌%◌, ◌^◌, ℤ, pos, negsuc, eqb_ℤ, Bool, true, false, not, ◌&&◌, Option, none,
  some, List, [], ◌∷◌, ◌++◌, ltb, ◌==◌, get_elem?, if◌then◌else◌,
}
use ig_libs.Text.{split}
use ig_libs.TcpClient.{TcpClient, new_client}
use ig_libs.TcpClient.Connect.{Net, close_in, connect_to, reconnect, set_timeout}
use ig_libs.TcpClientMgr.{TcpClientMgr, put_back, uninit}

-- The two parts of `ip_port`, if there are just two.
abbrev pub two_parts : List (List ℕ) → Option (List ℕ × List ℕ)
two_parts [] = none
two_parts (host ∷ []) = none
two_parts (host ∷ port ∷ []) = some (host, port)
two_parts (host ∷ port ∷ more ∷ parts) = none

-- Only 0 and 1 are taken.
abbrev pub send_type_of : ℤ → ℤ
send_type_of t = if not (eqb_ℤ t (pos 0)) && not (eqb_ℤ t (pos 1)) then pos 1 else t

-- The vector with its first connection written again.
abbrev pub and_first :
    {W : Type 0} → TcpClient → Option (List TcpClient × W) → Option (List TcpClient × W)
and_first c none = none
and_first c (some (cs, w)) = some (c ∷ cs, w)

abbrev pub checked :
    {W : Type 0} → TcpClientMgr → Option (List TcpClient × W) → Option (ℤ × TcpClientMgr × W)
checked m none = none
checked m (some (cs, w)) = some (pos 0, record m { m_connections = cs }, w)

abbrev pub deleted : {W : Type 0} → TcpClientMgr → Option W → Option (ℤ × TcpClientMgr × W)
deleted m none = none
deleted m (some w) = some (pos 0, uninit m, w)

module _ {W : Type 0} (net : Net W) (granted : W → Bool) where
  -- A new client, which goes to the end of the vector whether it could connect or not.
  add_client : TcpClientMgr → ℕ → List ℕ → List ℕ → W → TcpClientMgr × W
  add_client m timeout host port w =
      let (code, c, w') = set_timeout net new_client timeout w in
      let (code', c', w'') = connect_to net c host port w' in
      (
        record m {
          m_connections = m.m_connections ++ (c' ∷ []);
          m_conn_count = (m.m_conn_count + 1) % 2 ^ 32;
        },
        w'',
      )

  unfoldable pub add_host : TcpClientMgr → ℕ → W → Option (List ℕ × List ℕ) → TcpClientMgr × W
  unfolding add_client
  add_host m timeout w none = (m, w)
  add_host m timeout w (some (host, port)) =
      if granted w then add_client m timeout host port w else (m, w)

  unfoldable pub add_hosts : TcpClientMgr → ℕ → List (List ℕ) → W → TcpClientMgr × W
  add_hosts m timeout [] w = (m, w)
  add_hosts m timeout (addr ∷ addrs) w =
      let (m', w') = add_host m timeout w (two_parts (split addr 58)) in
      add_hosts m' timeout addrs w'

  add_listed : TcpClientMgr → List ℕ → ℤ → ℕ → W → ℤ × TcpClientMgr × W
  add_listed m [] send_type timeout w = (negsuc 0, m, w)
  add_listed m (c ∷ host_list) send_type timeout w =
      let (m', w') =
        add_hosts (record m { m_send_type = send_type_of send_type }) timeout
          (split (c ∷ host_list) 59) w in
      (pos 0, m', w')

  -- The timeout is in seconds.
  unfoldable pub init : TcpClientMgr → List ℕ → ℤ → ℕ → W → ℤ × TcpClientMgr × W
  unfolding add_listed
  init m host_list send_type timeout w =
      if ltb 0 m.m_conn_count then (pos 0, m, w) else add_listed m host_list send_type timeout w

module _ {W : Type 0} (net : Net W) where
  -- `reconnect` of the first `n`.
  pub check_loop : ℕ → List TcpClient → W → Option (List TcpClient × W)
  check_loop zero cs w = some (cs, w)
  check_loop (suc n) [] w = none
  check_loop (suc n) (c ∷ cs) w =
      let (code, c', w') = reconnect net c w in and_first c' (check_loop n cs w')

  -- `delete` of the first `n`, which closes them.
  pub delete_loop : ℕ → List TcpClient → W → Option W
  delete_loop zero cs w = some w
  delete_loop (suc n) [] w = none
  delete_loop (suc n) (c ∷ cs) w = let (c', w') = close_in net c w in delete_loop n cs w'

  pub check_connection : TcpClientMgr → W → Option (ℤ × TcpClientMgr × W)
  check_connection m w = checked m (check_loop m.m_conn_count m.m_connections w)

  -- `uninit` with its system calls.
  pub uninit_in : TcpClientMgr → W → Option (ℤ × TcpClientMgr × W)
  uninit_in m w = deleted m (delete_loop m.m_conn_count m.m_connections w)
