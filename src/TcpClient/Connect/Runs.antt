-- ===== src/TcpClient/Connect/Runs.antt =====
-- Whatever a program does with a client: runs of its connecting methods.
use ig_libs.Base.{ℕ, ◌+◌, ◌≡◌, refl, arith, List, [], ◌∷◌}
use ig_libs.TcpClient.{TcpClient, new_client}
use ig_libs.TcpClient.Connect.{close_in, connect, connect_to, reconnect, set_timeout}
use ig_libs.TcpClient.Connect.Recorded.{
  NetEvent, Answers, recorded, same_fd, opened, closed, got, freed, NamesAll,
}
use ig_libs.TcpClient.Connect.Balance.{Inv, close_in-Inv, connect-Inv, same_fd-close_in}
use ig_libs.TcpClient.Connect.Hosts.{connect_to-Inv, reconnect-Inv, set_timeout-Inv}

-- `closes` is close(), also where a data call makes it.
pub data Op : Type 0 where
  connects_to : (host port : List ℕ) → Op
  connects reconnects closes : Op
  sets_timeout : ℕ → Op

module _ (a : Answers) where
  abbrev perform : TcpClient → List NetEvent → Op → TcpClient × List NetEvent
  perform c log (connects_to host port) =
      let (r, c', log') = connect_to (recorded a) c host port log in (c', log')
  perform c log connects = let (r, c', log') = connect (recorded a) c log in (c', log')
  perform c log reconnects = let (r, c', log') = reconnect (recorded a) c log in (c', log')
  perform c log closes = close_in (recorded a) c log
  perform c log (sets_timeout t) =
      let (r, c', log') = set_timeout (recorded a) c t log in (c', log')

  pub run : TcpClient → List NetEvent → List Op → TcpClient × List NetEvent
  run c log [] = (c, log)
  run c log (op ∷ ops) = let (c', log') = perform c log op in run c' log' ops

  perform-Inv :
      (c : TcpClient) (log : List NetEvent) (op : Op)
      → Inv a (λ fd. 0) 0 c log
      → let (c', log') = perform c log op in Inv a (λ fd. 0) 0 c' log'
  perform-Inv c log (connects_to host port) v = connect_to-Inv a (λ fd. 0) 0 c host port log v
  perform-Inv c log connects v = connect-Inv a (λ fd. 0) 0 c log v
  perform-Inv c log reconnects v = reconnect-Inv a (λ fd. 0) 0 c log v
  perform-Inv c log closes v = close_in-Inv a (λ fd. 0) 0 c log v
  perform-Inv c log (sets_timeout t) v = set_timeout-Inv a (λ fd. 0) 0 c t log v

  run-Inv :
      (ops : List Op) (c : TcpClient) (log : List NetEvent)
      → Inv a (λ fd. 0) 0 c log
      → let (c', log') = run c log ops in Inv a (λ fd. 0) 0 c' log'
  unfolding run
  run-Inv [] c log v = v
  run-Inv (op ∷ ops) c log v =
      let (c', log') = perform c log op in run-Inv ops c' log' (perform-Inv c log op v)

  new-Inv : Inv a (λ fd. 0) 0 new_client []
  new-Inv = record { fds = λ fd. refl; names = λ h. refl }

  -- Whatever methods are called on a new client, and whatever the kernel and the resolver answer, each
  -- descriptor was opened as often as it was closed, and once more if it is the client's; so after the destructor's close() none is left open and
  -- none was closed twice.
  pub client_descriptors :
      (ops : List Op) (fd : ℕ)
      → let (c, log) = run new_client [] ops in
        let (c', log') = close_in (recorded a) c log in
        (opened fd log ≡ closed fd log + same_fd fd c.m_fd) × (opened fd log' ≡ closed fd log')
  client_descriptors ops fd =
      let (c, log) = run new_client [] ops in
      let v = run-Inv ops new_client [] new-Inv in
      let v' = close_in-Inv a (λ fd. 0) 0 c log v in
      (omega (arith, v.fds fd), omega (arith, v'.fds fd, same_fd-close_in a fd c log))

  -- If `inet_ntop` never fails, then whatever methods are called on a new client, the results that the resolver gave are
  -- freed, each list once.
  pub client_results_freed :
      NamesAll a → (ops : List Op) → let (c, log) = run new_client [] ops in got log ≡ freed log
  client_results_freed h ops = let v = run-Inv ops new_client [] new-Inv in omega (arith, v.names h)
