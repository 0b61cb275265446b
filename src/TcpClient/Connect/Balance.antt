-- ===== src/TcpClient/Connect/Balance.antt =====
-- No descriptor is lost or closed twice by connecting, and no resolver's results either.
use ig_libs.Base.{
  subst, sym, refl, inl, inr, ℕ, ◌+◌, ◌/◌, ◌%◌, ℤ, pos, negsuc, is_neg, eqb_ℤ, ◌≡◌, refl, inl, inr,
  arith, true, ◌||◌, Option, none, some, List, ◌∷◌, Bool-cases,
}
use ig_libs.TcpClient.{TcpClient, close, tc_error}
use ig_libs.TcpClient.Keeps.{Keeps}
use ig_libs.TcpClient.Connect.{
  settled_one, rcvtimeo, close_in, set_timeouts, give_up, address_read, socket_made, connect,
  is_empty, out_of_range,
}
use ig_libs.TcpClient.Connect.Recorded.{
  NetEvent, sets, dials, Answers, recorded, socket_recorded, same_fd, opened, closed, got, freed,
  NamesAll,
}

-- Each descriptor was opened as often as it was closed, and once more if the client has it, `others` being
-- those that somebody else has; `pending` results of the resolver are not freed, if `inet_ntop` never fails.
pub record Inv (a : Answers) (others : ℕ → ℕ) (pending : ℕ) (c : TcpClient) (log : List NetEvent)
    : Type 0 where
  pub fds : (fd : ℕ) → opened fd log ≡ closed fd log + (same_fd fd c.m_fd + others fd)
  pub names : NamesAll a → got log ≡ freed log + pending

same_fd_neg : (fd : ℕ) (z : ℤ) → is_neg z ≡ true → same_fd fd z ≡ 0
same_fd_neg fd (pos n) h = cc
same_fd_neg fd (negsuc n) h = refl

-- A client that was closed has no descriptor.
pub close_in-is_neg :
    (a : Answers) (c : TcpClient) (log : List NetEvent)
    → is_neg (close_in (recorded a) c log).0.m_fd ≡ true
unfolding close_in close
close_in-is_neg a c log = elim (Bool-cases (is_neg c.m_fd)) [
  | inl shut ↦ rw (shut, shut)
  | inr open_fd ↦ rw open_fd
]

pub same_fd-close_in :
    (a : Answers) (fd : ℕ) (c : TcpClient) (log : List NetEvent)
    → same_fd fd (close_in (recorded a) c log).0.m_fd ≡ 0
same_fd-close_in a fd c log = same_fd_neg fd _ (close_in-is_neg a c log)

module _ (a : Answers) (others : ℕ → ℕ) where
  abbrev pub After : ℕ → ℤ × TcpClient × List NetEvent → Type 0
  After pending (code, c, log) = Inv a others pending c log

  pub close_in-Inv :
      (p : ℕ) (c : TcpClient) (log : List NetEvent)
      → Inv a others p c log
      → let (c', log') = close_in (recorded a) c log in Inv a others p c' log'
  unfolding close_in close
  close_in-Inv p c log v = elim (Bool-cases (is_neg c.m_fd)) [
    | inl shut ↦ rw shut v
    | inr open_fd ↦ rw open_fd (record { fds = λ fd. omega (arith, v.fds fd); names = v.names })
  ]

  give_up-Inv :
      (p : ℕ) (c : TcpClient) (log : List NetEvent)
      → Inv a others p c log
      → After p (give_up (recorded a) c log)
  unfolding give_up
  give_up-Inv p c log v = close_in-Inv p c log v

  -- Setting timeouts opens and closes nothing.
  pub set_timeouts-Inv :
      (p : ℕ) (c : TcpClient) (fd : ℤ) (timeout : ℕ) (log : List NetEvent)
      → Inv a others p c log
      → Inv a others p c (set_timeouts (recorded a) fd timeout log).1
  unfolding set_timeouts
  set_timeouts-Inv p c fd timeout log v =
      elim (Bool-cases (
        eqb_ℤ (a.to_setsockopt (sets fd rcvtimeo (timeout / 1000000) (timeout % 1000000) ∷ log))
          (pos 0))) [
            | inl first ↦ rw first (record { fds = v.fds; names = v.names })
            | inr failed ↦ rw failed (record { fds = v.fds; names = v.names })
          ]

  address_read-Inv :
      (p : ℕ) (c : TcpClient) (log : List NetEvent) (addr : Option ℕ)
      → Inv a others p c log
      → After p (address_read (recorded a) c log addr)
  unfolding address_read
  address_read-Inv p c log none v = give_up-Inv p c log v
  address_read-Inv p c log (some addr) v =
      let log' = dials c.m_fd addr c.m_port ∷ log in
      let v' : Inv a others p c log' = record { fds = v.fds; names = v.names } in
      elim (Bool-cases (eqb_ℤ (a.to_connect log') (pos 0))) [
        | inl done ↦ rw done v'
        | inr failed ↦ rw failed (give_up-Inv p c log' v')
      ]

  socket_made-Inv :
      (p : ℕ) (c : TcpClient) (log : List NetEvent)
      → Inv a others p c log
      → After p (socket_made (recorded a) c log)
  unfolding socket_made
  socket_made-Inv p c log v =
      let (ok, log') = set_timeouts (recorded a) c.m_fd c.m_timeout log in
      let v' = set_timeouts-Inv p c c.m_fd c.m_timeout log v in
      elim (Bool-cases ok) [
        | inl done ↦ rw done (address_read-Inv p c log' (a.to_pton c.m_ip) v')
        | inr failed ↦ rw failed (give_up-Inv p c log' v')
      ]

  -- A new socket becomes the client's.
  made-Inv :
      (p : ℕ) (c : TcpClient) (log : List NetEvent) (answer : Option ℕ)
      → is_neg c.m_fd ≡ true
      → Inv a others p c log
      → let (fd, log') = socket_recorded answer log in Inv a others p (record c { m_fd = fd }) log'
  made-Inv p c log none e v = record {
    fds = λ fd. omega (arith, v.fds fd, same_fd_neg fd c.m_fd e);
    names = v.names;
  }
  made-Inv p c log (some n) e v = record {
    fds = λ fd. omega (arith, v.fds fd, same_fd_neg fd c.m_fd e);
    names = v.names;
  }

  pub connect-Inv :
      (p : ℕ) (c : TcpClient) (log : List NetEvent)
      → Inv a others p c log
      → After p (connect (recorded a) c log)
  unfolding connect
  connect-Inv p c log v = elim (Bool-cases (is_neg c.m_fd)) [
    | inr open_fd ↦ rw open_fd v
    | inl shut ↦ elim (Bool-cases (is_empty c.m_ip || out_of_range c.m_port)) [
      | inl bad ↦ rw (shut, bad) v
      | inr good ↦
          let (fd, log') = socket_recorded (a.to_socket log) log in
          let v' = made-Inv p c log (a.to_socket log) shut v in
          rw (shut, good)
            (elim (Bool-cases (eqb_ℤ fd tc_error)) [
              | inl none_made ↦ rw none_made v'
              | inr made ↦ rw made (socket_made-Inv p (record c { m_fd = fd }) log' v')
            ])
    ]
  ]

-- A data call closes its client, or leaves it.
module _ (a : Answers) where
  settled_one-same : (c : TcpClient) (log : List NetEvent) → settled_one (recorded a) c c log ≡ log
  unfolding settled_one
  settled_one-same c log = elim (Bool-cases (is_neg c.m_fd)) [
    | inl shut ↦ rw shut refl
    | inr open_fd ↦ rw open_fd refl
  ]

  settled_one-close :
      (c : TcpClient) (log : List NetEvent)
      → (close_in (recorded a) c log) ≡ (close c, settled_one (recorded a) c (close c) log)
  unfolding settled_one close_in close
  settled_one-close c log = elim (Bool-cases (is_neg c.m_fd)) [
    | inl shut ↦ rw shut refl
    | inr open_fd ↦ rw open_fd refl
  ]

  pub settled_one-Inv :
      (others : ℕ → ℕ) (c c' : TcpClient) (log : List NetEvent)
      → Keeps c c'
      → Inv a others 0 c log
      → Inv a others 0 c' (settled_one (recorded a) c c' log)
  settled_one-Inv others c c' log (inl same) v =
      subst (λ x. Inv a others 0 x (settled_one (recorded a) c x log)) (sym same)
        (subst (Inv a others 0 c) (sym (settled_one-same c log)) v)
  settled_one-Inv others c c' log (inr shut) v =
      subst (λ x. Inv a others 0 x (settled_one (recorded a) c x log)) (sym shut)
        (subst (λ o. Inv a others 0 o.0 o.1) (settled_one-close c log)
          (close_in-Inv a others 0 c log v))
