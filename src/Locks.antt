-- ===== src/Locks.antt =====
-- go/internal/locks/lock.go and replacer.go: what an attempt to take a lock returns, and the holder
-- that a lock records. `Acquire` and `AcquireOrReplace` of a lock stand with its backend.
pub mod Redis
pub mod Flock
use cronix.Prelude.{ℕ, if◌then◌else◌}
use cronix.Prelude.Int.{ℤ, leℤ, pos}
use cronix.Prelude.Text.{Text}

-- A handle, `ErrContended` or another error, with its text.
pub data Taken (H : Type 0) : Type 0 where
  taken : H → Taken H
  busy : Taken H
  lock_error : Text → Taken H

pub record Holder : Type 0 where
  pub pid : ℤ
  pub host : Text

-- What a signal to a process comes to: it is sent, the process is gone, or the call fails.
pub data Killed : Type 0 where
  signalled process_not_found kill_failed : Killed

-- `DefaultKiller.Kill`, where `signal_to` is `killProcess`
unfoldable pub default_kill : (ℤ → Killed) → ℤ → Killed
default_kill signal_to pid = if leℤ pid (pos 0) then kill_failed else signal_to pid
