-- ===== src/TcpClientMgr/Hosts/Balance.antt =====
-- No descriptor of a manager's clients is lost or closed twice.
use ig_libs.Base.{
  ℕ, suc, ◌+◌, ◌^◌, ◌<◌, ◌≤◌, ℤ, ◌≡◌, inl, inr, arith, Bool, Option, none, some, List, [], ◌∷◌,
  ◌++◌, length, length-append, Bool-cases, ltb,
}
use ig_libs.Text.{split}
use ig_libs.TcpClient.{TcpClient, new_client}
use ig_libs.TcpClient.Connect.{connect_to, set_timeout}
use ig_libs.TcpClient.Connect.Recorded.{
  NetEvent, Answers, recorded, same_fd, opened, closed, got, freed, NamesAll,
}
use ig_libs.TcpClient.Connect.Balance.{Inv}
use ig_libs.TcpClient.Connect.Hosts.{connect_to-Inv, set_timeout-Inv}
use ig_libs.TcpClientMgr.{TcpClientMgr}
use ig_libs.TcpClientMgr.Hosts.{two_parts, add_client, add_host, add_hosts, add_listed, init}

abbrev pub held_all : ℕ → List TcpClient → ℕ
held_all fd [] = 0
held_all fd (c ∷ cs) = same_fd fd c.m_fd + held_all fd cs

-- As `Inv`, for several clients.
pub record AllInv (a : Answers) (others : ℕ → ℕ) (cs : List TcpClient) (log : List NetEvent)
    : Type 0 where
  pub fds : (fd : ℕ) → opened fd log ≡ closed fd log + (held_all fd cs + others fd)
  pub names : NamesAll a → got log ≡ freed log

held_all-append :
    (fd : ℕ) (cs ds : List TcpClient) → held_all fd (cs ++ ds) ≡ held_all fd cs + held_all fd ds
held_all-append fd [] ds = omega arith
held_all-append fd (c ∷ cs) ds = omega (arith, held_all-append fd cs ds)

-- The manager's part: the vector has as many connections as are counted.
pub record MgrInv (a : Answers) (m : TcpClientMgr) (log : List NetEvent) : Type 0 where
  pub balanced : AllInv a (λ fd. 0) m.m_connections log
  pub counted : m.m_conn_count ≡ length m.m_connections

module _ (a : Answers) (granted : List NetEvent → Bool) where
  add_client-MgrInv :
      (m : TcpClientMgr) (timeout : ℕ) (host port : List ℕ) (log : List NetEvent)
      → suc (length m.m_connections) < 2 ^ 32
      → MgrInv a m log
      → let (m', log') = add_client (recorded a) granted m timeout host port log in
        MgrInv a m' log' × (length m'.m_connections ≡ suc (length m.m_connections))
  unfolding add_client
  add_client-MgrInv m timeout host port log room v =
      let others = λ (fd : ℕ). held_all fd m.m_connections in
      let (code, c, log') = set_timeout (recorded a) new_client timeout log in
      let (code', c', log'') = connect_to (recorded a) c host port log' in
      let start : Inv a others 0 new_client log = record {
        fds = λ fd. omega (arith, v.balanced.fds fd);
        names = λ h. omega (arith, v.balanced.names h);
      } in
      let end =
        connect_to-Inv a others 0 c host port log'
          (set_timeout-Inv a others 0 new_client timeout log start) in
      (
        record {
          balanced = record {
            fds = λ fd. omega (arith, end.fds fd, held_all-append fd m.m_connections (c' ∷ []));
            names = λ h. omega (arith, end.names h);
          };
          counted = omega (arith, v.counted, length-append m.m_connections (c' ∷ []));
        },
        omega (arith, length-append m.m_connections (c' ∷ [])),
      )

  add_host-MgrInv :
      (m : TcpClientMgr) (timeout : ℕ) (log : List NetEvent) (parts : Option (List ℕ × List ℕ))
      → suc (length m.m_connections) < 2 ^ 32
      → MgrInv a m log
      → let (m', log') = add_host (recorded a) granted m timeout log parts in
        MgrInv a m' log' × (length m'.m_connections ≤ suc (length m.m_connections))
  unfolding add_host
  add_host-MgrInv m timeout log none room v = (v, omega arith)
  add_host-MgrInv m timeout log (some (host, port)) room v = elim (Bool-cases (granted log)) [
    | inl given ↦
        let (v', more) = add_client-MgrInv m timeout host port log room v in
        rw given (v', omega (arith, more))
    | inr refused ↦ rw refused (v, omega arith)
  ]

  add_hosts-MgrInv :
      (addrs : List (List ℕ)) (m : TcpClientMgr) (timeout : ℕ) (log : List NetEvent)
      → length m.m_connections + length addrs < 2 ^ 32
      → MgrInv a m log
      → let (m', log') = add_hosts (recorded a) granted m timeout addrs log in MgrInv a m' log'
  unfolding add_hosts
  add_hosts-MgrInv [] m timeout log room v = v
  add_hosts-MgrInv (addr ∷ addrs) m timeout log room v =
      let (m', log') = add_host (recorded a) granted m timeout log (two_parts (split addr 58)) in
      let (v', more) = add_host-MgrInv m timeout log (two_parts (split addr 58)) (omega arith) v in
      add_hosts-MgrInv addrs m' timeout log' (omega (arith, more)) v'

  -- init() of a list of fewer than 2 ^ 32 addresses.
  pub init-MgrInv :
      (m : TcpClientMgr) (host_list : List ℕ) (send_type : ℤ) (timeout : ℕ) (log : List NetEvent)
      → length (split host_list 59) < 2 ^ 32
      → MgrInv a m log
      → let (code, m', log') = init (recorded a) granted m host_list send_type timeout log in
        MgrInv a m' log'
  unfolding init add_listed
  init-MgrInv m host_list send_type timeout log few v = elim (Bool-cases (ltb 0 m.m_conn_count)) [
    | inl before ↦ rw before v
    | inr fresh ↦ rw fresh (listed host_list few (ground (arith, v.counted)))
  ]
    where
      listed :
          (hosts : List ℕ)
          → length (split hosts 59) < 2 ^ 32
          → length m.m_connections ≡ 0
          → let (code, m', log') = add_listed (recorded a) granted m hosts send_type timeout log in
            MgrInv a m' log'
      listed [] h e = v
      listed (c ∷ hosts) h e =
          add_hosts-MgrInv (split (c ∷ hosts) 59) _ timeout log (omega arith)
            (record { balanced = v.balanced; counted = v.counted })
