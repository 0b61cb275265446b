-- ===== src/TcpClient/Connect/Result.antt =====
-- What connecting a closed client returns, and to what it is then connected.
use ig_libs.Base.{
  ℕ, ℤ, pos, negsuc, is_neg, eqb_ℤ, ◌≡◌, refl, inl, inr, sym, ap, ◌∙◌, Bool, true, false, not, ◌||◌,
  Option, none, some, List, [], ◌∷◌, ==_iff, Bool-cases, if◌then◌else◌,
}
use ig_libs.Text.{is_all_digit, atoi}
use ig_libs.TcpClient.{TcpClient, tc_error, close}
use ig_libs.TcpClient.Connect.{
  close_in, set_timeouts, give_up, address_read, socket_made, connect, named, try_results, resolved,
  connect_host, connect_to, is_empty, out_of_range,
}
use ig_libs.TcpClient.Connect.Recorded.{
  NetEvent, dials, frees, resolves, Answers, recorded, socket_recorded, results_recorded,
}
use ig_libs.TcpClient.Connect.Balance.{close_in-is_neg}
use ig_libs.TcpClient.Connect.Outcomes.{SameTarget, ConnectResult, TryResult, AfterHost}

pub eqb_ℤ→eq : (x y : ℤ) → eqb_ℤ x y ≡ true → x ≡ y
eqb_ℤ→eq (pos x) (pos y) h = ap pos ((==_iff x y).0 h)
eqb_ℤ→eq (negsuc x) (negsuc y) h = ap negsuc ((==_iff x y).0 h)
eqb_ℤ→eq (pos x) (negsuc y) h = cc
eqb_ℤ→eq (negsuc x) (pos y) h = cc

close-SameTarget : (c : TcpClient) → SameTarget (close c) c
unfolding close
close-SameTarget c = elim (Bool-cases (is_neg c.m_fd)) [
  | inl shut ↦ rw shut (refl, refl, refl)
  | inr open_fd ↦ rw open_fd (refl, refl, refl)
]

module _ (a : Answers) where
  give_up-ConnectResult :
      (c : TcpClient) (log : List NetEvent) → ConnectResult a c (give_up (recorded a) c log)
  unfolding give_up close_in
  give_up-ConnectResult c log = (close-SameTarget c, inr (refl, close_in-is_neg a c log))

  address_read-ConnectResult :
      (c : TcpClient) (n : ℕ) (log : List NetEvent) (addr : Option ℕ)
      → c.m_fd ≡ pos n
      → out_of_range c.m_port ≡ false
      → a.to_pton c.m_ip ≡ addr
      → ConnectResult a c (address_read (recorded a) c log addr)
  unfolding address_read
  address_read-ConnectResult c n log none fd port e = give_up-ConnectResult c log
  address_read-ConnectResult c n log (some addr) fd port e =
      let log' = dials c.m_fd addr c.m_port ∷ log in
      elim (Bool-cases (eqb_ℤ (a.to_connect log') (pos 0))) [
        | inl done ↦ rw done (
          (refl, refl, refl),
          inl (
            refl,
            (
              n,
              addr,
              log,
              ap (λ z. dials z addr c.m_port ∷ log) fd,
              fd,
              fd,
              e,
              port,
              eqb_ℤ→eq (a.to_connect log') (pos 0) done,
            ),
          ),
        )
        | inr failed ↦ rw failed (give_up-ConnectResult c log')
      ]

  socket_made-ConnectResult :
      (c : TcpClient) (n : ℕ) (log : List NetEvent)
      → c.m_fd ≡ pos n
      → out_of_range c.m_port ≡ false
      → ConnectResult a c (socket_made (recorded a) c log)
  unfolding socket_made
  socket_made-ConnectResult c n log fd port =
      let (ok, log') = set_timeouts (recorded a) c.m_fd c.m_timeout log in
      elim (Bool-cases ok) [
        | inl done ↦ rw done (address_read-ConnectResult c n log' (a.to_pton c.m_ip) fd port refl)
        | inr failed ↦ rw failed (give_up-ConnectResult c log')
      ]

  -- connect() of a closed client to the address that it has.
  connect-ConnectResult :
      (c : TcpClient) (log : List NetEvent)
      → is_neg c.m_fd ≡ true
      → ConnectResult a c (connect (recorded a) c log)
  unfolding connect
  connect-ConnectResult c log shut = elim (Bool-cases (is_empty c.m_ip || out_of_range c.m_port)) [
    | inl bad ↦ rw (shut, bad) ((refl, refl, refl), inr (refl, shut))
    | inr good ↦ rw (shut, good) (with_answer (a.to_socket log) (or_false (is_empty c.m_ip) good))
  ]
    where
      or_false : (x : Bool) {y : Bool} → (x || y) ≡ false → y ≡ false
      or_false true e = cc
      or_false false e = e

      with_answer :
          (answer : Option ℕ)
          → out_of_range c.m_port ≡ false
          → let (fd, log') = socket_recorded answer log in
            let opened : TcpClient = record c { m_fd = fd } in
            ConnectResult a c (
              if eqb_ℤ fd tc_error
              then (tc_error, opened, log')
              else socket_made (recorded a) opened log')
      with_answer none port = ((refl, refl, refl), inr (refl, refl))
      with_answer (some n) port =
          socket_made-ConnectResult (record c { m_fd = pos n }) n _ refl port

  -- A turn of the loop over the results: connected, or on to the next.
  turn-TryResult :
      (result : ℕ) (results : List ℕ) (c : TcpClient)
      (rest : TcpClient → List NetEvent → ℤ × TcpClient × List NetEvent)
      → a.to_ntop result ≡ some c.m_ip
      → ((c' : TcpClient) (log' : List NetEvent)
          → is_neg c'.m_fd ≡ true
          → TryResult a results c' (rest c' log'))
      → (out : ℤ × TcpClient × List NetEvent) → ConnectResult a c out
      → let (r, c', log') = out in
        TryResult a
          (result ∷ results)
          c
          (if eqb_ℤ r tc_error then rest c' log' else (c'.m_fd, c', frees ∷ log'))
  turn-TryResult result results c rest name next (r, c', log') (same, inr (e, shut)) =
      let (same', ends) = next c' log' shut in
      rw e (
        (same'.0 ∙ same.0, same'.1 ∙ same.1, same'.2 ∙ same.2),
        elim ends [ inl (named, done) ↦ inl (inr named, done) | inr failed ↦ inr failed ],
      )
  turn-TryResult result results c rest name next (r, c', log')
        (same, inl (ip, (n, addr, before, last, e, fd, read, fits, done))) =
      rw e (
        same,
        inl (
          inl (name ∙ ap some (sym ip)),
          (log', refl, (n, addr, before, last, fd, fd, read, fits, done)),
        ),
      )

  try_results-TryResult :
      (results : List ℕ) (c : TcpClient) (log : List NetEvent)
      → is_neg c.m_fd ≡ true
      → TryResult a results c (try_results (recorded a) c results log)
  unfolding try_results named
  try_results-TryResult [] c log shut = ((refl, refl, refl), inr (refl, shut))
  try_results-TryResult (result ∷ results) c log shut =
      by (a.to_ntop result) refl (try_results-TryResult results)
    where
      by :
          (name : Option (List ℕ))
          → a.to_ntop result ≡ name
          → ((c' : TcpClient) (log' : List NetEvent)
              → is_neg c'.m_fd ≡ true
              → TryResult a results c' (try_results (recorded a) c' results log'))
          → TryResult a
              (result ∷ results)
              c
              (named (recorded a) c name log (λ c' log'. try_results (recorded a) c' results log'))
      by none e next = ((refl, refl, refl), inr (refl, shut))
      by (some ip) e next =
          let at : TcpClient = record c { m_ip = ip } in
          turn-TryResult result results at (λ c' log'. try_results (recorded a) c' results log') e
            next (connect (recorded a) at log) (connect-ConnectResult at log shut)

  -- For a closed client, whatever the kernel and the resolver answer, connecting to a host returns -1 and the client is
  -- closed; or it returns a descriptor, which is then the client's, the client's address is one of the results that the resolver gave for this host and port, and
  -- the last thing asked of the kernel before the results were freed was a connect of that descriptor to that address, at the
  -- port that the port's digits give, which is 65535 at most, and the answer was 0. The client has the host and the port that were asked for.
  pub connect_host_result :
      (c : TcpClient) (host port : List ℕ) (log : List NetEvent)
      → is_neg c.m_fd ≡ true
      → AfterHost a log host port (connect_to (recorded a) c host port log)
  unfolding connect_to connect_host resolved
  connect_host_result c host port log shut =
      elim (Bool-cases (is_empty host || is_empty port || not (is_all_digit port))) [
        | inl bad ↦ rw bad (refl, refl, inr (refl, shut))
        | inr good ↦ elim (Bool-cases (out_of_range (atoi port))) [
          | inl wide ↦ rw (good, wide) (refl, refl, inr (refl, shut))
          | inr fits ↦ rw (good, fits) (answered (a.to_getaddrinfo log host port) refl)
        ]
      ]
    where
      at : TcpClient
      at = record c { m_str_host = host; m_str_port = port; m_port = atoi port }

      answered :
          (answer : Option (List ℕ))
          → a.to_getaddrinfo log host port ≡ answer
          → AfterHost a log host port (resolved (recorded a) at (results_recorded answer log))
      answered none e = (refl, refl, inr (refl, shut))
      answered (some results) e =
          sides (try_results (recorded a) at results (resolves ∷ log))
            (try_results-TryResult results at (resolves ∷ log) shut)
        where
          sides :
              (out : ℤ × TcpClient × List NetEvent)
              → TryResult a results at out
              → AfterHost a log host port out
          sides out (same, inl connected) = (same.1, same.2, inl (same.0, (results, e, connected)))
          sides out (same, inr failed) = (same.1, same.2, inr failed)
