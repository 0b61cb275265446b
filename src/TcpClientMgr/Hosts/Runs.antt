-- ===== src/TcpClientMgr/Hosts/Runs.antt =====
-- Runs of a manager's methods: no descriptor is lost, and no access is outside the vector.
use ig_libs.Base.{
  ◌>>=◌, ℕ, suc, ◌+◌, ◌^◌, ◌<◌, ℤ, pos, ◌≡◌, refl, sym, ap, ◌∙◌, arith, Bool, Option, some, List,
  [], ◌∷◌, length,
}
use ig_libs.Text.{split}
use ig_libs.TcpClient.{TcpClient}
use ig_libs.TcpClient.Connect.{close_in, reconnect}
use ig_libs.TcpClient.Connect.Recorded.{NetEvent, Answers, recorded, same_fd, opened, closed}
use ig_libs.TcpClient.Connect.Balance.{close_in-Inv, same_fd-close_in}
use ig_libs.TcpClient.Connect.Hosts.{reconnect-Inv}
use ig_libs.TcpClientMgr.{TcpClientMgr, new_manager, uninit}
use ig_libs.TcpClientMgr.Hosts.{init, check_loop, check_connection, delete_loop, uninit_in}
use ig_libs.TcpClientMgr.Hosts.Balance.{held_all, AllInv, MgrInv, init-MgrInv}

-- `out` is there, and `P` holds of it.
abbrev pub Gives {ℓ} : {A : Type 0} → (A → Type ℓ) → Option A → Type ℓ
Gives {A} P out = (x : A) × (out ≡ some x) × P x

-- What a program asks of a manager.
pub data Op : Type 0 where
  inits : (host_list : List ℕ) (send_type : ℤ) (timeout : ℕ) → Op
  checks uninits : Op

-- No list has 2 ^ 32 addresses.
abbrev pub FewAddresses : List Op → Type 0
FewAddresses [] = Unit {0}
FewAddresses (inits host_list send_type timeout ∷ ops) =
    (length (split host_list 59) < 2 ^ 32) × FewAddresses ops
FewAddresses (checks ∷ ops) = FewAddresses ops
FewAddresses (uninits ∷ ops) = FewAddresses ops

module _ (a : Answers) where
  check_loop-AllInv :
      (cs : List TcpClient) (others : ℕ → ℕ) (log : List NetEvent)
      → AllInv a others cs log
      → Gives
          (λ o. AllInv a others o.0 o.1 × (length o.0 ≡ length cs))
          (check_loop (recorded a) (length cs) cs log)
  unfolding check_loop
  check_loop-AllInv [] others log v = (([], log), refl, (v, refl))
  check_loop-AllInv (c ∷ cs) others log v =
      let here = λ (fd : ℕ). held_all fd cs + others fd in
      let (code, c', log') = reconnect (recorded a) c log in
      let w =
        reconnect-Inv a here 0 c log
          (record { fds = λ fd. omega (arith, v.fds fd); names = λ h. omega (arith, v.names h) }) in
      let ((cs', log''), e, (rest, size)) =
        check_loop-AllInv cs (λ fd. same_fd fd c'.m_fd + others fd) log'
          (record { fds = λ fd. omega (arith, w.fds fd); names = λ h. omega (arith, w.names h) }) in
      (
        (c' ∷ cs', log''),
        rw e refl,
        (record { fds = λ fd. omega (arith, rest.fds fd); names = rest.names }, ap suc size),
      )

  delete_loop-AllInv :
      (cs : List TcpClient) (log : List NetEvent)
      → AllInv a (λ fd. 0) cs log
      → Gives (AllInv a (λ fd. 0) []) (delete_loop (recorded a) (length cs) cs log)
  unfolding delete_loop
  delete_loop-AllInv [] log v = (log, refl, v)
  delete_loop-AllInv (c ∷ cs) log v =
      let (c', log') = close_in (recorded a) c log in
      let w =
        close_in-Inv a (λ fd. held_all fd cs) 0 c log
          (record { fds = λ fd. omega (arith, v.fds fd); names = λ h. omega (arith, v.names h) }) in
      delete_loop-AllInv cs log' (record {
        fds = λ fd. omega (arith, w.fds fd, same_fd-close_in a fd c log);
        names = λ h. omega (arith, w.names h);
      })

  pub check_connection-MgrInv :
      (m : TcpClientMgr) (log : List NetEvent)
      → MgrInv a m log
      → Gives (λ o. MgrInv a o.1 o.2) (check_connection (recorded a) m log)
  unfolding check_connection
  check_connection-MgrInv m log v =
      let ((cs, log'), e, (w, size)) = check_loop-AllInv m.m_connections (λ fd. 0) log v.balanced in
      (
        (pos 0, record m { m_connections = cs }, log'),
        rw (v.counted, e) refl,
        record { balanced = w; counted = v.counted ∙ sym size },
      )

  pub uninit_in-MgrInv :
      (m : TcpClientMgr) (log : List NetEvent)
      → MgrInv a m log
      → Gives (λ o. MgrInv a o.1 o.2 × (o.1.m_connections ≡ [])) (uninit_in (recorded a) m log)
  unfolding uninit_in uninit
  uninit_in-MgrInv m log v =
      let (log', e, w) = delete_loop-AllInv m.m_connections log v.balanced in
      (
        (pos 0, uninit m, log'),
        rw (v.counted, e) refl,
        (record { balanced = w; counted = refl }, refl),
      )

module _ (a : Answers) (granted : List NetEvent → Bool) where
  -- `none` if a method looked outside the vector.
  pub run : TcpClientMgr → List NetEvent → List Op → Option (TcpClientMgr × List NetEvent)
  run m log [] = some (m, log)
  run m log (inits host_list send_type timeout ∷ ops) =
      let (code, m', log') = init (recorded a) granted m host_list send_type timeout log in
      run m' log' ops
  run m log (checks ∷ ops) = do
    (code, m', log') ← check_connection (recorded a) m log
    run m' log' ops
  run m log (uninits ∷ ops) = do (code, m', log') ← uninit_in (recorded a) m log; run m' log' ops

  run-MgrInv :
      (ops : List Op) (m : TcpClientMgr) (log : List NetEvent)
      → FewAddresses ops
      → MgrInv a m log
      → Gives (λ o. MgrInv a o.0 o.1) (run m log ops)
  unfolding run
  run-MgrInv [] m log few v = ((m, log), refl, v)
  run-MgrInv (inits host_list send_type timeout ∷ ops) m log (here, few) v =
      let (code, m', log') = init (recorded a) granted m host_list send_type timeout log in
      run-MgrInv ops m' log' few (init-MgrInv a granted m host_list send_type timeout log here v)
  run-MgrInv (checks ∷ ops) m log few v =
      let ((code, m', log'), e, w) = check_connection-MgrInv a m log v in
      rw e (run-MgrInv ops m' log' few w)
  run-MgrInv (uninits ∷ ops) m log few v =
      let ((code, m', log'), e, (w, none_left)) = uninit_in-MgrInv a m log v in
      rw e (run-MgrInv ops m' log' few w)

  -- Whatever init, check_connection and uninit a program asks of a new manager, with lists of fewer
  -- than 2 ^ 32 addresses, and whatever the kernel and the resolver answer: no access is outside the vector, the count is the vector's length,
  -- each descriptor was opened as often as it was closed, and once more for each connection that has it; and the
  -- uninit of the destructor then closes all that are open.
  pub manager_descriptors :
      (ops : List Op) (fd : ℕ)
      → FewAddresses ops
      → (m : TcpClientMgr) × (log : List NetEvent) × (run new_manager [] ops ≡ some (m, log))
        × (m.m_conn_count ≡ length m.m_connections)
        × (opened fd log ≡ closed fd log + held_all fd m.m_connections)
        × ((code : ℤ) × (m' : TcpClientMgr) × (log' : List NetEvent) × (uninit_in (recorded a) m log
              ≡ some (code, m', log'))
            × (opened fd log' ≡ closed fd log'))
  manager_descriptors ops fd few =
      let ((m, log), e, v) = run-MgrInv ops new_manager [] few start in
      let ((code, m', log'), e', (v', none_left)) = uninit_in-MgrInv a m log v in
      (
        m,
        log,
        e,
        v.counted,
        omega (arith, v.balanced.fds fd),
        (code, m', log', e', omega (arith, v'.balanced.fds fd, ap (held_all fd) none_left)),
      )
    where
      start : MgrInv a new_manager []
      start = record { balanced = record { fds = λ fd. refl; names = λ h. refl }; counted = refl }
