-- ===== src/TcpClientMgr/Session.antt =====
-- All that a program does with a manager, on one kernel: init, check_connection and uninit, and between them the data calls, which
-- close a connection where they fail.
pub mod Kept
pub mod Balance
mod Tests
use ig_libs.Base.{
  ◌>>=◌, ℕ, ◌^◌, ◌<◌, ℤ, is_neg, ◌≡◌, Bool, not, ◌&&◌, Option, none, some, List, [], ◌∷◌, length,
  if◌then◌else◌,
}
use ig_libs.Text.{split}
use ig_libs.TcpClient.{TcpClient, Answer}
use ig_libs.TcpClient.Connect.{Net, settled_one}
use ig_libs.TcpClient.Connect.Recorded.{NetEvent, Answers, recorded}
use ig_libs.TcpClientMgr.{
  TcpClientMgr, new_manager, MgrOutcome, send_to, send, recv_from, recv, writev_to, writev,
  readv_from, readv, close_connection,
}
use ig_libs.TcpClientMgr.Hosts.{init, check_connection, uninit_in}

-- A data call, with its arguments and the answers of the kernel.
pub data Call : Type 0 where
  sends_to : (conn_id : ℕ) (buf : Option (List ℕ)) (len : ℕ) (answers : List Answer) → Call
  sends : (buf : Option (List ℕ)) (len : ℕ) (answers : List Answer) → Call
  recvs_from :
      (conn_id : ℕ) (has_buf : Bool) (len : ℕ) (stream : List ℕ) (answers : List Answer) → Call
  recvs : (has_buf : Bool) (len : ℕ) (stream : List ℕ) (answers : List Answer) → Call
  writevs_to : (conn_id : ℕ) (iovcnt : Option ℕ) (answer stale : Answer) → Call
  writevs : (iovcnt : Option ℕ) (answer stale : Answer) → Call
  readvs_from : (conn_id : ℕ) (iovcnt : Option ℕ) (answer : Answer) → Call
  readvs : (iovcnt : Option ℕ) (answer : Answer) → Call
  closes_connection : ℕ → Call

abbrev pub manager_of : Option MgrOutcome → Option TcpClientMgr
manager_of none = none
manager_of (some (code, m, bytes, answers)) = some m

-- The manager behind a call that returns.
pub call : TcpClientMgr → Call → Option TcpClientMgr
call m (sends_to conn_id buf len answers) = manager_of (send_to m conn_id buf len answers)
call m (sends buf len answers) = manager_of (send m buf len answers)
call m (recvs_from conn_id has_buf len stream answers) =
    manager_of (recv_from m conn_id has_buf len stream answers)
call m (recvs has_buf len stream answers) = manager_of (recv m has_buf len stream answers)
call m (writevs_to conn_id iovcnt answer stale) =
    manager_of (writev_to m conn_id iovcnt answer stale)
call m (writevs iovcnt answer stale) = manager_of (writev m iovcnt answer stale)
call m (readvs_from conn_id iovcnt answer) = manager_of (readv_from m conn_id iovcnt answer)
call m (readvs iovcnt answer) = manager_of (readv m iovcnt answer)
call m (closes_connection conn_id) = close_connection m conn_id

module _ {W : Type 0} (net : Net W) where
  -- The system calls of close() in a call, over the connections of a manager.
  pub settled : List TcpClient → List TcpClient → W → W
  settled [] cs' w = w
  settled (c ∷ cs) [] w = w
  settled (c ∷ cs) (c' ∷ cs') w = settled cs cs' (settled_one net c c' w)

-- The manager, and what the kernel and the resolver were asked.
abbrev pub State : Type 0
State = TcpClientMgr × List NetEvent

module _ (a : Answers) (granted : List NetEvent → Bool) where
  -- A method that returns.
  pub data Step (s : State) : State → Type 0 where
    inits :
        (host_list : List ℕ) (send_type : ℤ) (timeout : ℕ) {code : ℤ} {m' : TcpClientMgr}
        {log' : List NetEvent}
        → length (split host_list 59) < 2 ^ 32
        → init (recorded a) granted s.0 host_list send_type timeout s.1 ≡ (code, m', log')
        → Step s (m', log')
    checks :
        {code : ℤ} {m' : TcpClientMgr} {log' : List NetEvent}
        → check_connection (recorded a) s.0 s.1 ≡ some (code, m', log')
        → Step s (m', log')
    uninits :
        {code : ℤ} {m' : TcpClientMgr} {log' : List NetEvent}
        → uninit_in (recorded a) s.0 s.1 ≡ some (code, m', log')
        → Step s (m', log')
    calls :
        (c : Call) {m' : TcpClientMgr}
        → call s.0 c ≡ some m'
        → Step s (m', settled (recorded a) s.0.m_connections m'.m_connections s.1)

  pub data Reach : State → Type 0 where
    start : Reach (new_manager, [])
    later : {s t : State} → Reach s → Step s t → Reach t
