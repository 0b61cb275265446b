-- ===== src/Daemon.antt =====
-- daemon.cpp: daemonize and daemon_lock. What the kernel answers is a parameter, and the calls that change something are
-- a log. The message of perror is left out.
pub mod Lock
pub mod Streams
mod Tests
use ig_libs.Base.{
  ℕ, zero, suc, ◌+◌, ◌-◌, ◌/◌, ◌%◌, ◌^◌, ℤ, pos, negsuc, Bool, true, false, not, ◌&&◌, Option, none,
  some, List, [], ◌∷◌, ◌++◌, length, replicate, set, drop, take, leb, ltb, ◌==◌, if◌then◌else◌,
  ltb_ℤ,
}

-- What `fcntl(F_SETLK)` answers: a lock, `errno` EACCES or EAGAIN, or another `errno`.
pub data LockAnswer : Type 0 where
  locked : LockAnswer
  held : LockAnswer
  broken : LockAnswer

pub data LockCall : Type 0 where
  lock_whole : ℕ → LockCall
  truncate : ℕ → LockCall
  put : ℕ → List ℕ → LockCall

-- The digits are stored from the end of `buf`. The result is `buf` and `n`.
pub ascii_loop : ℕ → ℕ → List ℕ → ℕ → List ℕ × ℕ
ascii_loop zero pid buf n = (buf, n)
ascii_loop (suc fuel) pid buf n =
    let more = ascii_loop fuel (pid / 10) (set buf (15 - n) (pid % 10 + 48)) (suc n) in
    if ltb 0 pid then (if ltb n 16 then more else (buf, n)) else (buf, n)

-- `buf` is not initialised; its bytes are an argument.
abbrev pub written_pid : ℕ → List ℕ × ℕ → ℤ × List LockCall
written_pid fd (buf, n) =
    if ltb 0 n
    then (pos fd, lock_whole fd ∷ truncate fd ∷ put fd (take n (drop (16 - n) buf)) ∷ [])
    else (pos fd, lock_whole fd ∷ [])

abbrev pub lock_answered : ℕ → List ℕ → ℕ → LockAnswer → ℤ × List LockCall
unfolding ascii_loop
lock_answered pid buf fd held = (negsuc 0, lock_whole fd ∷ [])
lock_answered pid buf fd broken = (negsuc 1, lock_whole fd ∷ [])
lock_answered pid buf fd locked = written_pid fd (ascii_loop 17 pid buf 0)

abbrev pub lock_opened : ℕ → List ℕ → (ℕ → LockAnswer) → Option ℕ → ℤ × List LockCall
lock_opened pid buf answer none = (negsuc 0, [])
lock_opened pid buf answer (some fd) = lock_answered pid buf fd (answer fd)

-- `open` gives `none` where it fails. The path is `none` for NULL.
pub daemon_lock :
    (List ℕ → Option ℕ) → (ℕ → LockAnswer) → ℕ → List ℕ → Option (List ℕ) → ℤ × List LockCall
daemon_lock open_file answer pid buf none = (negsuc 0, [])
daemon_lock open_file answer pid buf (some fpath) = lock_opened pid buf answer (open_file fpath)

pub data ForkAnswer : Type 0 where
  failed : ForkAnswer
  child : ForkAnswer
  parent : ForkAnswer

-- The process: whether it leads a session and is in the root directory, and the file that each descriptor stands for.
pub record Process : Type 0 where
  pub leads_session : Bool
  pub in_root : Bool
  pub table : ℕ → Option ℕ

-- What the kernel answers. `open_null` is the descriptor for "/dev/null", and `null` the file.
pub record Kernel : Type 0 where
  pub fork : ForkAnswer
  pub setsid : Bool
  pub chdir : Bool
  pub null : ℕ
  pub open_null : Option ℕ
  pub dup2 : ℕ → ℕ → Bool
  pub close_ok : Bool

pub entered : ℕ → Option ℕ → (ℕ → Option ℕ) → ℕ → Option ℕ
entered fd file table other = if other == fd then file else table other

module _ (k : Kernel) where
  -- `dup2(fd, to)` three times, and a `return (-1)` where one fails.
  unfoldable pub copy_to : ℕ → List ℕ → Process → Bool × Process
  unfolding entered
  copy_to fd [] p = (true, p)
  copy_to fd (to ∷ tos) p =
      let rest = copy_to fd tos (record p { table = entered to (p.table fd) p.table }) in
      if k.dup2 fd to then rest else (false, p)

  abbrev pub close_above : ℕ → Bool × Process → ℤ × Process
  unfolding entered
  close_above fd (false, p) = (negsuc 0, p)
  close_above fd (true, p) =
      if ltb 2 fd
      then (if k.close_ok
          then (pos 0, record p { table = entered fd none p.table })
          else (negsuc 0, p))
      else (pos 0, p)

  -- `open` of "/dev/null", where it succeeds, enters the descriptor.
  abbrev pub to_null : Option ℕ → Process → ℤ × Process
  unfolding copy_to
  to_null none p = (pos 0, p)
  to_null (some fd) p =
      close_above fd
        (copy_to fd (0 ∷ 1 ∷ 2 ∷ []) (record p { table = entered fd (some k.null) p.table }))

  abbrev pub in_session : Bool → Bool → Process → ℤ × Process
  in_session nochdir noclose p =
      let moved : Process = if nochdir then p else record p { in_root = true } in
      if not nochdir && not k.chdir
      then (negsuc 0, p)
      else (if noclose then (pos 0, moved) else to_null k.open_null moved)

  abbrev pub forked : Bool → Bool → Process → ForkAnswer → Option (ℤ × Process)
  forked nochdir noclose p failed = some (negsuc 0, p)
  forked nochdir noclose p parent = none
  forked nochdir noclose p child = some (
      if k.setsid
      then in_session nochdir noclose (record p { leads_session = true })
      else (negsuc 0, p))

  -- `none` where the process, the parent, exits. The arguments tell whether they are not 0.
  pub daemonize : Bool → Bool → Process → Option (ℤ × Process)
  daemonize nochdir noclose p = forked nochdir noclose p k.fork
