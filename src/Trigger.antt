-- ===== src/Trigger.antt =====
-- go/internal/trigger: the shim that a scheduler starts at each fire. `Backoff` is computeBackoff,
-- `Secrets` is secrets.go, `Spec` is spec.go, `Run` is `Run` and `fire` of shim.go.
pub mod Backoff
pub mod Secrets
pub mod Spec
pub mod Run
use cronix.Prelude.{ℕ, zero, suc, [], if◌then◌else◌, ◌-◌, Option, none, ◌∷◌, some, ◌==◌}
use cronix.Prelude.Int.{ℤ, mul64, ltℤ, leℤ}
use cronix.Prelude.Text.{Text, codes, cut_prefix}

-- The exit codes.
abbrev pub exit_ok : ℕ
exit_ok = 0

abbrev pub exit_app_rejected : ℕ
exit_app_rejected = 1

abbrev pub exit_retries_exhausted : ℕ
exit_retries_exhausted = 2

abbrev pub exit_internal : ℕ
exit_internal = 3

abbrev pub exit_lock_contended : ℕ
exit_lock_contended = 4

-- A `time.Duration` is a number of nanoseconds. `time.Duration(n) * time.Second`:
abbrev pub seconds : ℤ → ℤ
seconds n = mul64 n 1000000000

-- The loop of `computeBackoff`, with the rounds left.
backoff_loop : ℕ → ℤ → ℤ → ℤ → ℤ
backoff_loop zero d min_backoff max_backoff = if ltℤ d min_backoff then min_backoff else d
backoff_loop (suc rounds) d min_backoff max_backoff =
    let doubled = mul64 d 2 in
    let rest = backoff_loop rounds doubled min_backoff max_backoff in
    if leℤ max_backoff doubled then max_backoff else rest

-- `i` runs from 1 to `attempt - 1`.
unfoldable pub compute_backoff : ℕ → ℤ → ℤ → ℤ
unfolding backoff_loop
compute_backoff attempt min_backoff max_backoff =
    backoff_loop (attempt - 1) min_backoff min_backoff max_backoff

-- What follows the first `pat` in the text.
unfoldable pub after_first : Text → Text → Option Text
after_first pat [] = cut_prefix [] pat
after_first pat (c ∷ cs) =
    let rest = after_first pat cs in
    elim (cut_prefix (c ∷ cs) pat) [ none ↦ rest | some t ↦ some t ]

-- The text from its first slash on.
unfoldable pub from_slash : Text → Option Text
from_slash [] = none
from_slash (c ∷ cs) = let rest = from_slash cs in if c == b'/' then some (c ∷ cs) else rest

-- `reqPath`
unfoldable pub req_path : Text → Text
unfolding after_first from_slash
req_path raw_url = elim (after_first (codes "://") raw_url) [
  | none ↦ raw_url
  | some rest ↦ elim (from_slash rest) [ none ↦ codes "/" | some path ↦ path ]
]
