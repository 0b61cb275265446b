-- ===== src/TcpClient/Connect/Recorded.antt =====
-- A kernel and a resolver that answer as they like, also after what happened before, and record what they are
-- asked, the newest first; and what the record says of descriptors and of resolvers' results.
use ig_libs.Base.{
  ℕ, suc, ◌+◌, ℤ, pos, negsuc, ◌≢◌, Option, none, some, List, [], ◌∷◌, ◌==◌, if◌then◌else◌,
}
use ig_libs.TcpClient.{Answer}
use ig_libs.TcpClient.Connect.{Net, SockOpt}

pub data NetEvent : Type 0 where
  opens : ℕ → NetEvent
  sets : ℤ → SockOpt → ℕ → ℕ → NetEvent
  dials : ℤ → ℕ → ℤ → NetEvent
  shuts closes peeks : ℤ → NetEvent
  resolves frees : NetEvent

-- `socket` gives a descriptor, which is not negative, or -1.
pub record Answers : Type 0 where
  pub to_socket : List NetEvent → Option ℕ
  pub to_setsockopt : List NetEvent → ℤ
  pub to_pton : List ℕ → Option ℕ
  pub to_ntop : ℕ → Option (List ℕ)
  pub to_connect : List NetEvent → ℤ
  pub to_getaddrinfo : List NetEvent → List ℕ → List ℕ → Option (List ℕ)
  pub to_peek : List NetEvent → Answer
  pub to_name : List NetEvent → Option (ℕ × ℕ)

abbrev pub socket_recorded : Option ℕ → List NetEvent → ℤ × List NetEvent
socket_recorded none log = (negsuc 0, log)
socket_recorded (some fd) log = (pos fd, opens fd ∷ log)

abbrev pub results_recorded : Option (List ℕ) → List NetEvent → Option (List ℕ) × List NetEvent
results_recorded none log = (none, log)
results_recorded (some results) log = (some results, resolves ∷ log)

abbrev pub recorded : Answers → Net (List NetEvent)
recorded a = record {
  socket = λ log. socket_recorded (a.to_socket log) log;
  setsockopt = λ fd opt sec usec log.
      (a.to_setsockopt (sets fd opt sec usec ∷ log), sets fd opt sec usec ∷ log);
  inet_pton = a.to_pton;
  inet_ntop = a.to_ntop;
  connect_fd =
      λ fd addr port log. (a.to_connect (dials fd addr port ∷ log), dials fd addr port ∷ log);
  shutdown = λ fd log. shuts fd ∷ log;
  close_fd = λ fd log. closes fd ∷ log;
  getaddrinfo = λ host port log. results_recorded (a.to_getaddrinfo log host port) log;
  freeaddrinfo = λ log. frees ∷ log;
  peek = λ fd log. (a.to_peek (peeks fd ∷ log), peeks fd ∷ log);
  getsockname = λ fd log. a.to_name log;
}

-- Whether `z` is the descriptor `fd`, as a count.
abbrev pub same_fd : ℕ → ℤ → ℕ
same_fd fd (pos n) = if n == fd then 1 else 0
same_fd fd (negsuc n) = 0

abbrev pub opened : ℕ → List NetEvent → ℕ
opened fd [] = 0
opened fd (opens n ∷ log) = same_fd fd (pos n) + opened fd log
opened fd (sets z opt sec usec ∷ log) = opened fd log
opened fd (dials z addr port ∷ log) = opened fd log
opened fd (shuts z ∷ log) = opened fd log
opened fd (closes z ∷ log) = opened fd log
opened fd (peeks z ∷ log) = opened fd log
opened fd (resolves ∷ log) = opened fd log
opened fd (frees ∷ log) = opened fd log

abbrev pub closed : ℕ → List NetEvent → ℕ
closed fd [] = 0
closed fd (opens n ∷ log) = closed fd log
closed fd (sets z opt sec usec ∷ log) = closed fd log
closed fd (dials z addr port ∷ log) = closed fd log
closed fd (shuts z ∷ log) = closed fd log
closed fd (closes z ∷ log) = same_fd fd z + closed fd log
closed fd (peeks z ∷ log) = closed fd log
closed fd (resolves ∷ log) = closed fd log
closed fd (frees ∷ log) = closed fd log

-- How often the resolver gave results, and how often results were freed.
abbrev pub got : List NetEvent → ℕ
got [] = 0
got (opens n ∷ log) = got log
got (sets z opt sec usec ∷ log) = got log
got (dials z addr port ∷ log) = got log
got (shuts z ∷ log) = got log
got (closes z ∷ log) = got log
got (peeks z ∷ log) = got log
got (resolves ∷ log) = suc (got log)
got (frees ∷ log) = got log

abbrev pub freed : List NetEvent → ℕ
freed [] = 0
freed (opens n ∷ log) = freed log
freed (sets z opt sec usec ∷ log) = freed log
freed (dials z addr port ∷ log) = freed log
freed (shuts z ∷ log) = freed log
freed (closes z ∷ log) = freed log
freed (peeks z ∷ log) = freed log
freed (resolves ∷ log) = freed log
freed (frees ∷ log) = suc (freed log)

-- `inet_ntop` never fails.
abbrev pub NamesAll : Answers → Type 0
NamesAll a = (addr : ℕ) → a.to_ntop addr ≢ none
