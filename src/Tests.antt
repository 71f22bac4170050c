-- ===== src/Tests.antt =====
-- Concrete inputs of the program, with what the theorems say of them.
mod Samples
mod Memory
mod Manifests
mod Plans
mod Signatures
mod Runs
mod Crontabs
mod Histories
mod Locks
mod Units
mod Clouds
mod Files
mod Prunes
use cronix.Prelude.{ℕ}
