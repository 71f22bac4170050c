-- ===== src/Tests/Files.antt =====
-- A contended lock file, and a contender that replaces its holder.
use cronix.Prelude.{some, none, [], List, ◌∷◌}
use cronix.Prelude.Int.{pos, ℤ}
use cronix.Prelude.Text.{codes, Text}
use cronix.Locks.{signalled}
use cronix.Locks.Flock.{held_elsewhere, Flock, Os, holder_text}

-- The state is the holder file of the one lock, which another process holds, and who was signalled.
abbrev held_file : Os (Text × List ℤ)
held_file = record {
  try_lock = λ path s. (s, held_elsewhere);
  unlock = λ path s. (s, none);
  write_file = λ path contents s. (contents, s.1);
  read_file = λ path s. some s.0;
  remove_file = λ path s. ([], s.1);
  kill = λ pid s. ((s.0, pid ∷ s.1), signalled);
}

abbrev this_host : Flock
this_host = record { dir = codes "/var/lock/cronix"; host = codes "web1"; pid = pos 77 }

abbrev local_file : Text
local_file = holder_text (record { pid = pos 42; host = codes "web1" })
