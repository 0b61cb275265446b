-- ===== src/TcpClient/Connect/Hosts.antt =====
-- The balance of descriptors and results through the resolver, reconnecting and timeouts.
use ig_libs.Base.{
  ℕ, suc, ◌*◌, ℤ, is_neg, eqb_ℤ, ◌≡◌, refl, inl, inr, arith, not, ◌||◌, Option, none, some, List,
  [], ◌∷◌, Bool-cases,
}
use ig_libs.Text.{is_all_digit, atoi}
use ig_libs.TcpClient.{TcpClient, tc_error}
use ig_libs.TcpClient.Connect.{
  close_in, connect, named, try_results, resolved, connect_host, connect_to, look, reconnect,
  set_timeout, is_empty, out_of_range,
}
use ig_libs.TcpClient.Connect.Recorded.{
  NetEvent, resolves, frees, Answers, recorded, results_recorded,
}
use ig_libs.TcpClient.Connect.Balance.{Inv, After, close_in-Inv, set_timeouts-Inv, connect-Inv}

module _ (a : Answers) (others : ℕ → ℕ) where
  freed-Inv :
      (p : ℕ) (c : TcpClient) (log : List NetEvent)
      → Inv a others (suc p) c log
      → Inv a others p c (frees ∷ log)
  freed-Inv p c log v = record { fds = v.fds; names = λ h. omega (arith, v.names h) }

  -- Only a failing `inet_ntop` leaves results behind.
  named-Inv :
      (p : ℕ) (c : TcpClient) (log : List NetEvent) (addr : ℕ)
      (rest : TcpClient → List NetEvent → ℤ × TcpClient × List NetEvent)
      → Inv a others (suc p) c log
      → ((c' : TcpClient) (log' : List NetEvent)
          → Inv a others (suc p) c' log'
          → After a others p (rest c' log'))
      → After a others p (named (recorded a) c (a.to_ntop addr) log rest)
  unfolding named
  named-Inv p c log addr rest v next = by (a.to_ntop addr) refl
    where
      by :
          (name : Option (List ℕ))
          → a.to_ntop addr ≡ name
          → After a others p (named (recorded a) c name log rest)
      by none e = record { fds = v.fds; names = λ h. absurd (h addr e) }
      by (some ip) e =
          let at : TcpClient = record c { m_ip = ip } in
          let (r, c', log') = connect (recorded a) at log in
          let v' : Inv a others (suc p) c' log' =
            connect-Inv a others (suc p) at log (record { fds = v.fds; names = v.names }) in
          elim (Bool-cases (eqb_ℤ r tc_error)) [
            | inl failed ↦ rw failed (next c' log' v')
            | inr done ↦ rw done (freed-Inv p c' log' v')
          ]

  try_results-Inv :
      (p : ℕ) (results : List ℕ) (c : TcpClient) (log : List NetEvent)
      → Inv a others (suc p) c log
      → After a others p (try_results (recorded a) c results log)
  unfolding try_results
  try_results-Inv p [] c log v = freed-Inv p c log v
  try_results-Inv p (addr ∷ results) c log v =
      named-Inv p c log addr (λ c' log'. try_results (recorded a) c' results log') v
        (try_results-Inv p results)

  resolved-Inv :
      (p : ℕ) (c : TcpClient) (log : List NetEvent) (answer : Option (List ℕ))
      → Inv a others p c log
      → After a others p (resolved (recorded a) c (results_recorded answer log))
  unfolding resolved
  resolved-Inv p c log none v = v
  resolved-Inv p c log (some results) v =
      try_results-Inv p results c (resolves ∷ log)
        (record { fds = v.fds; names = λ h. omega (arith, v.names h) })

  pub connect_host-Inv :
      (p : ℕ) (c : TcpClient) (log : List NetEvent)
      → Inv a others p c log
      → After a others p (connect_host (recorded a) c log)
  unfolding connect_host
  connect_host-Inv p c log v =
      elim (Bool-cases
        (is_empty c.m_str_host || is_empty c.m_str_port || not (is_all_digit c.m_str_port))) [
          | inl bad ↦ rw bad v
          | inr good ↦
              let at : TcpClient = record c { m_port = atoi c.m_str_port } in
              let v' : Inv a others p at log = record { fds = v.fds; names = v.names } in
              elim (Bool-cases (out_of_range at.m_port)) [
                | inl wide ↦ rw (good, wide) v'
                | inr fits ↦
                    rw (good, fits)
                      (resolved-Inv p at log (a.to_getaddrinfo log c.m_str_host c.m_str_port) v')
              ]
        ]

  pub connect_to-Inv :
      (p : ℕ) (c : TcpClient) (host port : List ℕ) (log : List NetEvent)
      → Inv a others p c log
      → After a others p (connect_to (recorded a) c host port log)
  unfolding connect_to
  connect_to-Inv p c host port log v =
      connect_host-Inv p (record c { m_str_host = host; m_str_port = port }) log
        (record { fds = v.fds; names = v.names })

  look-Inv :
      (p : ℕ) (c : TcpClient) (log : List NetEvent)
      → Inv a others p c log
      → Inv a others p c (look (recorded a) c log).1
  unfolding look
  look-Inv p c log v = elim (Bool-cases (is_neg c.m_fd)) [
    | inl shut ↦ rw shut v
    | inr open_fd ↦ rw open_fd (record { fds = v.fds; names = v.names })
  ]

  pub reconnect-Inv :
      (p : ℕ) (c : TcpClient) (log : List NetEvent)
      → Inv a others p c log
      → After a others p (reconnect (recorded a) c log)
  unfolding reconnect
  reconnect-Inv p c log v =
      let (alive, log') = look (recorded a) c log in
      let v' = look-Inv p c log v in
      elim (Bool-cases alive) [
        | inl lives ↦ rw lives v'
        | inr dead ↦
            let (c', log'') = close_in (recorded a) c log' in
            rw dead (connect_host-Inv p c' log'' (close_in-Inv a others p c log' v'))
      ]

  pub set_timeout-Inv :
      (p : ℕ) (c : TcpClient) (t : ℕ) (log : List NetEvent)
      → Inv a others p c log
      → After a others p (set_timeout (recorded a) c t log)
  unfolding set_timeout
  set_timeout-Inv p c t log v =
      let c' : TcpClient = record c { m_timeout = t * 1000000 } in
      let v' : Inv a others p c' log = record { fds = v.fds; names = v.names } in
      elim (Bool-cases (is_neg c.m_fd)) [
        | inl shut ↦ rw shut v'
        | inr open_fd ↦ rw open_fd (set_timeouts-Inv a others p c' c.m_fd c'.m_timeout log v')
      ]
