-- ===== src/Daemon/Tests.antt =====
-- Runs of daemonize and daemon_lock.
use ig_libs.Base.{
  ℕ, zero, suc, ◌≡◌, refl, arith, pos, true, false, Option, none, some, List, [], ◌∷◌, replicate,
}
use ig_libs.Text.Digits.{decimal}
use ig_libs.Daemon.{
  LockAnswer, locked, lock_whole, truncate, put, daemon_lock, Kernel, Process, child, entered,
  to_null, daemonize,
}
use ig_libs.Daemon.Lock.{daemon_lock_writes}
use ig_libs.Daemon.Streams.{Standing, daemonize_detaches}

abbrev third : List ℕ → Option ℕ
third path = some 3

abbrev free_lock : ℕ → LockAnswer
free_lock fd = locked

daemon_lock_writes_example :
    daemon_lock third free_lock 4711 (replicate 16 7) (some (47 ∷ []))
    ≡ (pos 3, lock_whole 3 ∷ truncate 3 ∷ put 3 (decimal 4711) ∷ [])
daemon_lock_writes_example =
    daemon_lock_writes third free_lock 4711 3 (replicate 16 7) (47 ∷ []) refl refl (omega arith)
      (omega arith) refl

-- Every call succeeds, and "/dev/null" is the file 9.
abbrev willing : Kernel
willing = record {
  fork = child;
  setsid = true;
  chdir = true;
  null = 9;
  open_null = some 3;
  dup2 = λ fd to. true;
  close_ok = true;
}

-- The three streams are the file 1, and nothing else is open.
abbrev terminal : ℕ → Option ℕ
terminal zero = some 1
terminal (suc zero) = some 1
terminal (suc (suc zero)) = some 1
terminal (suc (suc (suc d))) = none

abbrev started : Process
started = record { leads_session = false; in_root = false; table = terminal }

abbrev detached : Process
unfolding entered
detached = record {
  leads_session = true;
  in_root = true;
  table =
      entered 3 none (
        entered 2 (some 9) (entered 1 (some 9) (entered 0 (some 9) (entered 3 (some 9) terminal))));
}

started-detached : daemonize willing false false started ≡ some (pos 0, detached)
unfolding daemonize to_null
started-detached = refl

daemonize_detaches_example : Standing willing false false started detached
daemonize_detaches_example =
    daemonize_detaches willing started detached false false started-detached
