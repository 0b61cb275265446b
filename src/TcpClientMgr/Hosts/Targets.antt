-- ===== src/TcpClientMgr/Hosts/Targets.antt =====
-- Which clients TcpClientMgr::init makes of a list of addresses.
use mathlib.Core.List.{map-append}
use ig_libs.Base.{
  length, arith, false, eqb_ℤ, Bool-cases, ==_refl, ℕ, ℤ, pos, is_neg, ◌≡◌, ◌≢◌, ◌⊎◌, refl, inl,
  inr, sym, ap, ap₂, ◌*◌, subst, ◌∙◌, append_assoc, append-nil, Bool, true, Option, none, some,
  List, [], ◌∷◌, ◌++◌, map,
}
use ig_libs.Text.{split, atoi}
use ig_libs.TcpClient.{TcpClient, new_client, tc_error}
use ig_libs.TcpClient.Connect.{connect_to, set_timeout}
use ig_libs.TcpClient.Connect.Recorded.{NetEvent, Answers, recorded}
use ig_libs.TcpClient.Connect.Outcomes.{IsConnected, IsNamed, AtResult}
use ig_libs.TcpClient.Connect.Result.{eqb_ℤ→eq, connect_host_result}
use ig_libs.TcpClientMgr.{TcpClientMgr, new_manager}
use ig_libs.TcpClientMgr.Hosts.{
  two_parts, send_type_of, add_client, add_host, add_hosts, add_listed, init,
}

-- The hosts and ports of the addresses that are in just two parts, in their order.
pub data HostParts : List (List ℕ) → List (List ℕ × List ℕ) → Type 0 where
  none_left : HostParts [] []
  taken :
      {addr host port : List ℕ} {addrs : List (List ℕ)} {ts : List (List ℕ × List ℕ)}
      → split addr 58 ≡ host ∷ port ∷ []
      → HostParts addrs ts
      → HostParts (addr ∷ addrs) ((host, port) ∷ ts)
  left_out :
      {addr : List ℕ} {addrs : List (List ℕ)} {ts : List (List ℕ × List ℕ)}
      → length (split addr 58) ≢ 2
      → HostParts addrs ts
      → HostParts (addr ∷ addrs) ts

-- What send type is kept for the one given.
abbrev pub SendType : ℤ → ℤ → Type 0
SendType given t =
    (((given ≡ pos 0) ⊎ (given ≡ pos 1)) × (t ≡ given))
    ⊎ ((given ≢ pos 0) × (given ≢ pos 1) × (t ≡ pos 1))

abbrev pub target : TcpClient → List ℕ × List ℕ
target c = (c.m_str_host, c.m_str_port)

-- Connected at an address that the resolver gave for the host and the port of the client.
abbrev pub AtHost : Answers → TcpClient → Type 0
AtHost a c =
    (c.m_port ≡ atoi c.m_str_port)
    × ((asked : List NetEvent) × (results : List ℕ) × (a.to_getaddrinfo asked c.m_str_host
            c.m_str_port
          ≡ some results)
        × IsNamed a results c.m_ip
        × ((said : List NetEvent) × IsConnected a c.m_fd c said))

-- Each client is closed, or is connected to its host.
abbrev pub AllReady : Answers → List TcpClient → Type 0
AllReady a [] = Unit {0}
AllReady a (c ∷ cs) = ((is_neg c.m_fd ≡ true) ⊎ AtHost a c) × AllReady a cs

AllReady-append :
    (a : Answers) (cs ds : List TcpClient) → AllReady a cs → AllReady a ds → AllReady a (cs ++ ds)
AllReady-append a [] ds h k = k
AllReady-append a (c ∷ cs) ds (here, h) k = (here, AllReady-append a cs ds h k)

-- With memory for every client.
abbrev pub always : List NetEvent → Bool
always log = true

module _ (a : Answers) where
  -- What one more client adds.
  add_client-target :
      (m : TcpClientMgr) (timeout : ℕ) (host port : List ℕ) (log : List NetEvent)
      → let (m', log') = add_client (recorded a) always m timeout host port log in
        (c : TcpClient) × (m'.m_connections ≡ m.m_connections ++ (c ∷ []))
        × (target c ≡ (host, port))
        × AllReady a (c ∷ [])
  unfolding add_client set_timeout
  add_client-target m timeout host port log =
      let c : TcpClient = record new_client { m_timeout = timeout * 1000000 } in
      let (code, c', log') = connect_to (recorded a) c host port log in
      let (h, p, ends) = connect_host_result a c host port log refl in
      (c', refl, ap₂ (λ x y. (x, y)) h p, (ready code c' log' h p ends, tt))
    where
      ready :
          (code : ℤ) (c : TcpClient) (log' : List NetEvent)
          → c.m_str_host ≡ host
          → c.m_str_port ≡ port
          → ((c.m_port ≡ atoi port)
              × ((results : List ℕ) × (a.to_getaddrinfo log host port ≡ some results)
                  × AtResult a results code c log'))
            ⊎ ((code ≡ tc_error) × (is_neg c.m_fd ≡ true))
          → (is_neg c.m_fd ≡ true) ⊎ AtHost a c
      ready code c log' h p (inr (e, shut)) = inl shut
      ready code c log' h p
            (inl (
              at,
              (
                results,
                given,
                (named, (said, freed, (n, addr, before, last, e, fd, read, fits, done))),
              ),
            )) =
          inr (
            at ∙ ap atoi (sym p),
            (
              log,
              results,
              ap₂ (a.to_getaddrinfo log) h p ∙ given,
              named,
              (said, (n, addr, before, last, fd, fd, read, fits, done)),
            ),
          )

  two_parts_lem :
      (parts : List (List ℕ))
      → ((host : List ℕ) × (port : List ℕ) × (parts ≡ host ∷ port ∷ [])
          × (two_parts parts ≡ some (host, port)))
        ⊎ ((length parts ≢ 2) × (two_parts parts ≡ none))
  two_parts_lem [] = inr ((λ e. omega (arith, e)), refl)
  two_parts_lem (host ∷ []) = inr ((λ e. omega (arith, e)), refl)
  two_parts_lem (host ∷ port ∷ []) = inl (host, port, refl, refl)
  two_parts_lem (host ∷ port ∷ more ∷ parts) = inr ((λ e. omega (arith, e)), refl)

  send_type_of-SendType : (t : ℤ) → SendType t (send_type_of t)
  send_type_of-SendType t = elim (Bool-cases (eqb_ℤ t (pos 0))) [
    | inl zero ↦ rw zero (inl (inl (eqb_ℤ→eq t (pos 0) zero), refl))
    | inr other ↦ rw other (elim (Bool-cases (eqb_ℤ t (pos 1))) [
      | inl one ↦ rw one (inl (inr (eqb_ℤ→eq t (pos 1) one), refl))
      | inr more ↦ rw more (inr (differs t 0 other, differs t 1 more, refl))
    ])
  ]
    where
      apart : false ≡ true → ⊥
      apart e = cc

      differs : (x : ℤ) (n : ℕ) → eqb_ℤ x (pos n) ≡ false → x ≢ pos n
      differs x n e same = apart (sym e ∙ ap (λ z. eqb_ℤ z (pos n)) same ∙ ==_refl n)

  -- What the addresses add to the clients that are there.
  abbrev Added : List (List ℕ) → TcpClientMgr → TcpClientMgr → Type 0
  Added addrs m m' =
      ((ts : List (List ℕ × List ℕ)) × HostParts addrs ts
        × (map target m'.m_connections ≡ map target m.m_connections ++ ts))
      × AllReady a m'.m_connections

  add_hosts-Added :
      (addrs : List (List ℕ)) (m : TcpClientMgr) (timeout : ℕ) (log : List NetEvent)
      → AllReady a m.m_connections
      → Added addrs m (add_hosts (recorded a) always m timeout addrs log).0
  unfolding add_hosts add_host
  add_hosts-Added [] m timeout log v = (([], none_left, sym (append-nil _)), v)
  add_hosts-Added (addr ∷ addrs) m timeout log v = elim (two_parts_lem (split addr 58)) [
    | inr (other, e) ↦ subst After (sym e) (
        let ((ts, list, rest), all) = add_hosts-Added addrs m timeout log v in
        ((ts, left_out other list, rest), all))
    | inl (host, port, two, e) ↦ subst After (sym e) (
        let (m', log') = add_client (recorded a) always m timeout host port log in
        let (c, more, same, ready) = add_client-target m timeout host port log in
        let ((ts, list, rest), all) =
          add_hosts-Added addrs m' timeout log'
            (subst (AllReady a) (sym more) (AllReady-append a m.m_connections (c ∷ []) v ready)) in
        (
          (
            (host, port) ∷ ts,
            taken two list,
            rest
                ∙ ap (λ xs. xs ++ ts)
                    (ap (map target) more ∙ map-append target m.m_connections (c ∷ []))
                ∙ append_assoc (map target m.m_connections) (target c ∷ []) ts
                ∙ ap (λ t. map target m.m_connections ++ (t ∷ ts)) same,
          ),
          all,
        ))
  ]
    where
      After : Option (List ℕ × List ℕ) → Type 0
      After parts = Added (addr ∷ addrs) m (
          let (m', log') = add_host (recorded a) always m timeout log parts in
          (add_hosts (recorded a) always m' timeout addrs log').0)

  add_hosts-m_send_type :
      (addrs : List (List ℕ)) (m : TcpClientMgr) (timeout : ℕ) (log : List NetEvent)
      → (add_hosts (recorded a) always m timeout addrs log).0.m_send_type ≡ m.m_send_type
  unfolding add_hosts add_host add_client
  add_hosts-m_send_type [] m timeout log = refl
  add_hosts-m_send_type (addr ∷ addrs) m timeout log =
      let (m', log') = add_host (recorded a) always m timeout log (two_parts (split addr 58)) in
      add_hosts-m_send_type addrs m' timeout log' ∙ kept (two_parts (split addr 58))
    where
      kept :
          (parts : Option (List ℕ × List ℕ))
          → (add_host (recorded a) always m timeout log parts).0.m_send_type ≡ m.m_send_type
      kept none = refl
      kept (some (host, port)) = refl

  -- On a new manager with memory for every client, init() of a non-empty list returns 0 and makes one client for
  -- each address of the list that has just a host and a port, in their order and with just these, addresses of any other form left out; each client
  -- is closed, or the kernel answered a connect of its descriptor, to an address that the resolver gave for its host and port, at the port that it is to have, with 0. The
  -- send type is the one given if that is 0 or 1, else 1.
  pub init_targets :
      (host_list : List ℕ) (send_type : ℤ) (timeout : ℕ) (log : List NetEvent)
      → host_list ≢ []
      → let (code, m, log') =
          init (recorded a) always new_manager host_list send_type timeout log in
        (code ≡ pos 0)
        × SendType send_type m.m_send_type
        × HostParts (split host_list 59) (map target m.m_connections)
        × AllReady a m.m_connections
  unfolding init add_listed
  init_targets [] send_type timeout log h = absurd (h refl)
  init_targets (c ∷ hosts) send_type timeout log h =
      let m : TcpClientMgr = record new_manager { m_send_type = send_type_of send_type } in
      let ((ts, list, e), ready) = add_hosts-Added (split (c ∷ hosts) 59) m timeout log tt in
      (
        refl,
        subst (SendType send_type)
            (sym (add_hosts-m_send_type (split (c ∷ hosts) 59) m timeout log))
            (send_type_of-SendType send_type),
        subst (HostParts (split (c ∷ hosts) 59)) (sym e) list,
        ready,
      )
