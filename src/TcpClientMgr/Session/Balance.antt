-- ===== src/TcpClientMgr/Session/Balance.antt =====
-- Over all methods of a manager no descriptor is lost or closed twice.
use mathlib.Core.Option.{some-injective}
use ig_libs.Base.{ℕ, ◌+◌, ℤ, ◌≡◌, refl, sym, ap, ◌∙◌, subst, arith, suc, Bool, some, List, length}
use ig_libs.TcpClient.{TcpClient}
use ig_libs.TcpClient.Connect.{settled_one}
use ig_libs.TcpClient.Connect.Recorded.{NetEvent, Answers, recorded, same_fd, opened, closed}
use ig_libs.TcpClient.Connect.Balance.{settled_one-Inv}
use ig_libs.TcpClientMgr.{TcpClientMgr}
use ig_libs.TcpClientMgr.Hosts.{check_connection, uninit_in}
use ig_libs.TcpClientMgr.Hosts.Balance.{held_all, AllInv, MgrInv, init-MgrInv}
use ig_libs.TcpClientMgr.Hosts.Runs.{check_connection-MgrInv, uninit_in-MgrInv}
use ig_libs.TcpClientMgr.Session.{
  settled, State, Step, inits, checks, uninits, calls, Reach, start, later,
}
use ig_libs.TcpClientMgr.Session.Kept.{AllKeep, none_left, one_more, call-MgrKeeps}

module _ (a : Answers) where
  settled-AllInv :
      {cs cs' : List TcpClient} (others : ℕ → ℕ) (log : List NetEvent)
      → AllKeep cs cs'
      → AllInv a others cs log
      → AllInv a others cs' (settled (recorded a) cs cs' log) × (length cs' ≡ length cs)
  unfolding settled
  settled-AllInv others log none_left v = (v, refl)
  settled-AllInv others log (one_more {c} {c'} {cs} {cs'} k ks) v =
      let w =
        settled_one-Inv a (λ fd. held_all fd cs + others fd) c c' log k
          (record { fds = λ fd. omega (arith, v.fds fd); names = λ h. omega (arith, v.names h) }) in
      let (rest, size) =
        settled-AllInv (λ fd. same_fd fd c'.m_fd + others fd) (settled_one (recorded a) c c' log) ks
          (record { fds = λ fd. omega (arith, w.fds fd); names = λ h. omega (arith, w.names h) }) in
      (record { fds = λ fd. omega (arith, rest.fds fd); names = rest.names }, ap suc size)

module _ (a : Answers) (granted : List NetEvent → Bool) where
  Step-MgrInv : {s t : State} → Step a granted s t → MgrInv a s.0 s.1 → MgrInv a t.0 t.1
  Step-MgrInv {s} (inits host_list send_type timeout few e) v =
      subst (λ o. MgrInv a o.1 o.2) e
        (init-MgrInv a granted s.0 host_list send_type timeout s.1 few v)
  Step-MgrInv {s} (checks e) v =
      let (out, e', w) = check_connection-MgrInv a s.0 s.1 v in
      subst (λ o. MgrInv a o.1 o.2) (some-injective _ _ (sym e' ∙ e)) w
  Step-MgrInv {s} (uninits e) v =
      let (out, e', (w, none_there)) = uninit_in-MgrInv a s.0 s.1 v in
      subst (λ o. MgrInv a o.1 o.2) (some-injective _ _ (sym e' ∙ e)) w
  Step-MgrInv {s} (calls c e) v =
      let k = call-MgrKeeps s.0 c e in
      let (w, size) = settled-AllInv a (λ fd. 0) s.1 k.conns v.balanced in
      record { balanced = w; counted = k.count ∙ v.counted ∙ sym size }

  Reach-MgrInv : {s : State} → Reach a granted s → MgrInv a s.0 s.1
  Reach-MgrInv start = record {
    balanced = record { fds = λ fd. refl; names = λ h. refl };
    counted = refl;
  }
  Reach-MgrInv (later r step) = Step-MgrInv step (Reach-MgrInv r)

  -- After any calls of a manager's methods, data calls and their failures included, and whatever the kernel and the resolver answer, with
  -- lists of fewer than 2 ^ 32 addresses: the count is the vector's length, each descriptor was opened as often as it was closed, and
  -- once more for each connection that has it; check_connection and uninit then look at no place outside the vector, and
  -- behind uninit every descriptor is closed, none of them twice.
  pub session_descriptors :
      (m : TcpClientMgr) (log : List NetEvent) (fd : ℕ)
      → Reach a granted (m, log)
      → (m.m_conn_count ≡ length m.m_connections)
        × (opened fd log ≡ closed fd log + held_all fd m.m_connections)
        × ((out : ℤ × TcpClientMgr × List NetEvent) × (check_connection (recorded a) m log
              ≡ some out))
        × ((code : ℤ) × (m' : TcpClientMgr) × (log' : List NetEvent) × (uninit_in (recorded a) m log
              ≡ some (code, m', log'))
            × (opened fd log' ≡ closed fd log'))
  session_descriptors m log fd r =
      let v = Reach-MgrInv r in
      let (out, e, w) = check_connection-MgrInv a m log v in
      let ((code, m', log'), e', (v', none_left_there)) = uninit_in-MgrInv a m log v in
      (
        v.counted,
        omega (arith, v.balanced.fds fd),
        (out, e),
        (code, m', log', e', omega (arith, v'.balanced.fds fd, ap (held_all fd) none_left_there)),
      )
