-- ===== src/Systemd.antt =====
-- go/internal/backends/systemd: the parts of the backend, each in a file of its own. Unit files lie
-- in a directory that is a list of names and contents, in the order of the names.
pub mod Calendar
pub mod Units
pub mod UnitLines
pub mod Host
use cronix.Prelude.{ℕ}
