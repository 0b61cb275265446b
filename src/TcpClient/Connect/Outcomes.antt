-- ===== src/TcpClient/Connect/Outcomes.antt =====
-- How connecting a client can end.
use ig_libs.Base.{ℕ, ℤ, pos, is_neg, ◌≡◌, ◌⊎◌, true, false, some, List, [], ◌∷◌}
use ig_libs.Text.{atoi}
use ig_libs.TcpClient.{TcpClient, tc_error}
use ig_libs.TcpClient.Connect.{out_of_range}
use ig_libs.TcpClient.Connect.Recorded.{NetEvent, dials, frees, Answers}

-- The client is connected: its descriptor is the one returned, and the last thing `said` to the kernel, which it answered with 0, was a `::connect` of
-- that to the client's address and port.
abbrev pub IsConnected : Answers → ℤ → TcpClient → List NetEvent → Type 0
IsConnected a code c said =
    (n : ℕ) × (addr : ℕ) × (before : List NetEvent) × (said ≡ dials (pos n) addr c.m_port ∷ before)
    × (code ≡ pos n)
    × (c.m_fd ≡ pos n)
    × (a.to_pton c.m_ip ≡ some addr)
    × (out_of_range c.m_port ≡ false)
    × (a.to_connect said ≡ pos 0)

-- The address is one of the results, as it is printed.
abbrev pub IsNamed : Answers → List ℕ → List ℕ → Type 0
IsNamed a [] ip = ⊥
IsNamed a (result ∷ results) ip = (a.to_ntop result ≡ some ip) ⊎ IsNamed a results ip

-- The host and the port that the client is to have are the same.
abbrev pub SameTarget : TcpClient → TcpClient → Type 0
SameTarget c' c =
    (c'.m_port ≡ c.m_port) × (c'.m_str_host ≡ c.m_str_host) × (c'.m_str_port ≡ c.m_str_port)

-- Connected to the address that it had, or TC_ERROR and closed, with the target that was asked for.
abbrev pub ConnectResult : Answers → TcpClient → ℤ × TcpClient × List NetEvent → Type 0
ConnectResult a c (code, c', log) =
    SameTarget c' c
    × (((c'.m_ip ≡ c.m_ip) × IsConnected a code c' log)
        ⊎ ((code ≡ tc_error) × (is_neg c'.m_fd ≡ true)))

-- Connected to one of the results, which are freed after that.
abbrev pub AtResult : Answers → List ℕ → ℤ → TcpClient → List NetEvent → Type 0
AtResult a results code c log =
    IsNamed a results c.m_ip
    × ((said : List NetEvent) × (log ≡ frees ∷ said) × IsConnected a code c said)

abbrev pub TryResult : Answers → List ℕ → TcpClient → ℤ × TcpClient × List NetEvent → Type 0
TryResult a results c (code, c', log) =
    SameTarget c' c
    × (AtResult a results code c' log ⊎ ((code ≡ tc_error) × (is_neg c'.m_fd ≡ true)))

-- How connecting to a host ends.
abbrev pub AfterHost :
    Answers → List NetEvent → List ℕ → List ℕ → ℤ × TcpClient × List NetEvent → Type 0
AfterHost a asked host port (code, c, log) =
    (c.m_str_host ≡ host)
    × (c.m_str_port ≡ port)
    × (((c.m_port ≡ atoi port)
          × ((results : List ℕ) × (a.to_getaddrinfo asked host port ≡ some results)
              × AtResult a results code c log))
        ⊎ ((code ≡ tc_error) × (is_neg c.m_fd ≡ true)))
