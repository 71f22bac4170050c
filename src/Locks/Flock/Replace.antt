-- ===== src/Locks/Flock/Replace.antt =====
-- go/internal/locks/flock/flock.go: whom a contender that replaces signals.
use cronix.Prelude.{ℕ, ◌++◌, List, Option}
use cronix.Locks.{Killed, Taken, kill_failed, lock_error, signalled, process_not_found}
use cronix.Locks.Flock.{Os, Flock, Context, FileHandle, poll_exit}
use cronix.Prelude.Text.{Text, codes}
use cronix.Prelude.Text.Decimal.{decimal}

module _ {S : Type 0} (os : Os S) (b : Flock) where
  -- What is to follow the signal to the process `n`, from the state and the outcome of the signal.
  abbrev pub after_signal :
      ℕ
      → Context S
      → List ((S → S) × Context S)
      → Option Text
      → Text
      → S × Killed
      → S × Taken FileHandle
  after_signal n ctx rounds ends key r = elim r.1 [
    | kill_failed ↦ (r.0, lock_error (codes "flock: SIGTERM holder pid=" ++ decimal n))
    | signalled ↦ poll_exit os b ctx rounds ends key r.0
    | process_not_found ↦ poll_exit os b ctx rounds ends key r.0
  ]
