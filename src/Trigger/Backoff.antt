-- ===== src/Trigger/Backoff.antt =====
-- The back-off doubles from the minimum and is capped by the maximum.
use cronix.Prelude.{ℕ, zero, suc, ◌*◌, ◌≤◌, arith, ◌<◌, ◌≡◌, min, ◌-◌}
use cronix.Trigger.{backoff_loop, compute_backoff}
use cronix.Prelude.Int.{pos, mul64_exact}

-- `lo * 2 ^ k` with no power: doubled `k` times.
abbrev pub doubled : ℕ → ℕ → ℕ
doubled zero lo = lo
doubled (suc k) lo = doubled k (lo * 2)

doubled-ge : (k lo : ℕ) → lo ≤ doubled k lo
doubled-ge zero lo = omega arith
doubled-ge (suc k) lo = omega (arith, doubled-ge k (lo * 2))

backoff_loop-min :
    (k d lo hi : ℕ)
    → lo ≤ d
    → d ≤ hi
    → hi < 4611686018427387904
    → backoff_loop k (pos d) (pos lo) (pos hi) ≡ pos (min (doubled k d) hi)
unfolding backoff_loop
backoff_loop-min zero d lo hi h k b = ground arith
backoff_loop-min (suc n) d lo hi h k b =
    rw (mul64_exact d 2 (omega arith))
      (ground (arith, doubled-ge n (d * 2), backoff_loop-min n (d * 2) lo hi))

-- With a minimum of `lo` nanoseconds, at most the maximum, which is below 2^62, the back-off after
-- attempt `k + 1` is `lo` doubled `k` times, or the maximum where that is less.
pub compute_backoff-min :
    (k lo hi : ℕ)
    → lo ≤ hi
    → hi < 4611686018427387904
    → compute_backoff (suc k) (pos lo) (pos hi) ≡ pos (min (doubled k lo) hi)
unfolding compute_backoff
compute_backoff-min k lo hi h b =
    let e : suc k - 1 ≡ k = omega arith in rw e (backoff_loop-min k lo lo hi (omega arith) h b)
