-- ===== src/Perpetual/Pidfile.antt =====
-- perpetual.py: `PidfileGuard`. What `os.kill(pid, 0)` answers is an argument.
use claude_swarm.Prelude.{
  ℕ, Bool, true, false, not, ◌&&◌, Option, none, some, if◌then◌else◌, runtime_error, ℤ, pos, negsuc,
  nat_beq, Run, returns, raises,
}

-- What the file says: a number, or a text that `_read_pid` makes nothing of.
pub data PidText : Type 0 where
  number : ℤ → PidText
  unreadable : PidText

-- How the probe of a process ends.
pub data Signal : Type 0 where
  delivered : Signal
  no_such_process : Signal
  not_permitted : Signal

abbrev is_there : Signal → Bool
is_there delivered = true
is_there no_such_process = false
is_there not_permitted = true

unfoldable pub pid_alive : (ℕ → Signal) → ℤ → Bool
pid_alive probe (negsuc n) = false
pid_alive probe (pos n) = if nat_beq n 0 then false else is_there (probe n)

unfoldable pub read_pid : Option PidText → Option ℤ
read_pid none = none
read_pid (some unreadable) = none
read_pid (some (number pid)) = some pid

abbrev is_pid : ℕ → ℤ → Bool
is_pid me (pos n) = nat_beq n me
is_pid me (negsuc n) = false

-- `owner is not None and _pid_alive(owner) and owner != os.getpid()`
abbrev pub is_taken : (ℕ → Signal) → ℕ → Option ℤ → Bool
is_taken probe me none = false
is_taken probe me (some owner) = pid_alive probe owner && not (is_pid me owner)

-- The file after `acquire` by `me`; DuplicateTeamError is a RuntimeError.
unfoldable pub acquire : (ℕ → Signal) → ℕ → Option PidText → Run (Option PidText) (Unit {0})
unfolding pid_alive read_pid
acquire probe me file =
    if is_taken probe me (read_pid file)
    then raises runtime_error file
    else returns tt (some (number (pos me)))

abbrev owned_by : ℕ → Option ℤ → Bool
owned_by me none = false
owned_by me (some owner) = is_pid me owner

unfoldable pub release : ℕ → Option PidText → Option PidText
unfolding read_pid
release me file = if owned_by me (read_pid file) then none else file
