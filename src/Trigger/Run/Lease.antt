-- ===== src/Trigger/Run/Lease.antt =====
-- Whether the time of the lock, which is one timeout and thirty seconds, covers the attempts, each of
-- which has a timeout of its own.
use cronix.Prelude.{
  refl, List, ◌++◌, ◌≡◌, ◌+◌, ℕ, arith, Bool, ◌∷◌, some, suc, [], ◌≤◌, ◌∙◌, false, none, true, ltb,
  ◌-◌, ◌<◌, subst, ap, All,
}
use cronix.Trigger.Run.Locking.{spent, IsGuarded, run_locked-IsGuarded, IsInner}
use cronix.Trigger.Run.{
  released, add64, World, Event, FireTimes, fire, attempt_loop, run_attempts, with_lock, run_locked,
  fire_with, HttpRequest, wait_then, fire_signed, Fired, Acquired, sent, Result, acquired,
  attempt_time, Verdict, slept, classify, logged, held, retry, success, attempts_of, app_rejected,
  crash, retry_message, failed,
}
use cronix.Prelude.Int.{ℤ, pos_part, pos, int64_exact}
use cronix.Prelude.Text.{Text, equal, codes}
use cronix.Trigger.Spec.{SpecFile}
use cronix.Trigger.{seconds, compute_backoff}

spent-append : (a b : List Event) → spent (a ++ b) ≡ spent a + spent b
unfolding spent
spent-append [] b = omega arith
spent-append (acquired key ttl ∷ a) b = spent-append a b
spent-append (released ∷ a) b = spent-append a b
spent-append (sent attempt req took ∷ a) b = omega (arith, spent-append a b)
spent-append (slept d ∷ a) b = omega (arith, spent-append a b)
spent-append (logged message ∷ a) b = spent-append a b

pub lease_exact :
    (n : ℕ) → n < 9223372006854775808 → add64 (pos n) 30000000000 ≡ pos (n + 30000000000)
unfolding add64
lease_exact n h = int64_exact (n + 30000000000) (omega arith)

-- Events behind others that take no time.
spent-instant : (a b : List Event) → spent b ≡ 0 → spent (a ++ b) ≡ spent a
spent-instant a b h = omega (arith, spent-append a b)

module _ (w : World) (secrets : List Text) (spec : SpecFile) (run_id : Text)
    (times : FireTimes) where
  fire-spent :
      (attempt : ℕ)
      → spent (fire w secrets spec run_id attempt times).1
        ≤ pos_part (seconds spec.job.policy.timeout_seconds)
  unfolding fire fire_with fire_signed attempt_time spent
  fire-spent attempt = ground arith

  abbrev loop : ℕ → ℤ → ℤ → ℕ → ℕ → Fired → Result × List Event
  loop = attempt_loop w secrets spec run_id times

  -- The only attempt of a policy with one.
  loop-single :
      (lo hi : ℤ) (last : Fired)
      → spent (loop 1 lo hi 1 1 last).1 ≡ spent (fire w secrets spec run_id 1 times).1
  unfolding attempt_loop spent
  loop-single lo hi last = by_verdict (classify (fire w secrets spec run_id 1 times).0) refl
    where
      by_verdict :
          (v : Verdict)
          → classify (fire w secrets spec run_id 1 times).0 ≡ v
          → spent (loop 1 lo hi 1 1 last).1 ≡ spent (fire w secrets spec run_id 1 times).1
      by_verdict success e = rw (e, attempt_loop, spent-append) (omega arith)
      by_verdict app_rejected e = rw (e, attempt_loop, spent-append) (omega arith)
      by_verdict crash e = rw (e, attempt_loop, spent-append) (omega arith)
      by_verdict retry e = rw (e, attempt_loop, spent-append) (omega arith)

  -- With a lock configured, a policy other than Allow, and one attempt: the request is sent while
  -- the lock is held and is over before the lock's time has passed, and the lock that is taken is
  -- released at the end. The timeout is one whose sum with thirty seconds fits in 64 bits.
  pub run_locked-single :
      (lock : Bool → Text → ℤ → ℤ → Acquired) (n : ℕ)
      → w.lock ≡ some lock
      → equal spec.job.policy.concurrency (codes "Allow") ≡ false
      → attempts_of spec.job.policy.retries.max_attempts ≡ 1
      → seconds spec.job.policy.timeout_seconds ≡ pos n
      → n < 9223372006854775808
      → IsGuarded none (run_locked w secrets spec run_id times).1
  unfolding run_attempts
  run_locked-single lock n e h one t b =
      run_locked-IsGuarded w secrets spec run_id times lock e h
        (rw (t, lease_exact n b) (covers one))
    where
      covers :
          attempts_of spec.job.policy.retries.max_attempts ≡ 1
          → spent (run_attempts w secrets spec run_id times).1 < n + 30000000000
      covers one =
          rw (one, run_attempts)
            (rw (loop-single _ _ failed) (
              omega (
                arith,
                subst (λ z. spent (fire w secrets spec run_id 1 times).1 ≤ pos_part z) t
                    (fire-spent 1),
              )))

  loop-head :
      (most : ℕ) (lo hi : ℤ) (left attempt : ℕ) (last : Fired)
      → (rest : List Event) × ((loop most lo hi (suc left) attempt last).1
          ≡ (fire w secrets spec run_id attempt times).1 ++ rest)
  unfolding attempt_loop
  loop-head most lo hi left attempt last = (_, refl)

  abbrev Sends : ℕ → HttpRequest → ℕ → Type 0
  Sends attempt req took = (fire w secrets spec run_id attempt times).1 ≡ sent attempt req took ∷ []

  loop-second :
      (most : ℕ) (lo hi : ℤ) (left : ℕ) (last : Fired) (req req' : HttpRequest) (took took' : ℕ)
      → 2 ≤ most
      → classify (fire w secrets spec run_id 1 times).0 ≡ retry
      → w.cancelled 1 ≡ false
      → Sends 1 req took
      → Sends 2 req' took'
      → (message : Text) × (rest : List Event) × ((loop most lo hi (suc (suc left)) 1 last).1
          ≡ sent 1 req took
            ∷ logged message
            ∷ slept (compute_backoff 1 lo hi)
            ∷ sent 2 req' took'
            ∷ rest)
  unfolding attempt_loop wait_then
  loop-second most lo hi left last req req' took took' m v c f g =
      let (rest, e) = loop-head most lo hi left 2 (fire w secrets spec run_id 1 times).0 in
      let more : ltb 1 most ≡ true = ground arith in
      (
        retry_message (fire w secrets spec run_id 1 times).0,
        rest,
        first more (e ∙ ap (λ events. events ++ rest) g),
      )
    where
      first :
          {rest : List Event}
          → ltb 1 most ≡ true
          → (loop most lo hi (suc left) 2 (fire w secrets spec run_id 1 times).0).1
            ≡ sent 2 req' took' ∷ rest
          → (loop most lo hi (suc (suc left)) 1 last).1
            ≡ sent 1 req took
              ∷ logged (retry_message (fire w secrets spec run_id 1 times).0)
              ∷ slept (compute_backoff 1 lo hi)
              ∷ sent 2 req' took'
              ∷ rest
      first more e = rw (v, more, c, f, attempt_loop, e) refl

  -- Request `attempt` is sent when the time of the lock, which is taken for `ttl` at the start, has
  -- passed; the lock is neither released nor taken again before.
  abbrev pub SentLate : ℕ → HttpRequest → ℕ → Text → ℤ → List Event → Type 0
  SentLate attempt req took key ttl events =
      (earlier : List Event) × (rest : List Event) × (events
        ≡ acquired key ttl ∷ (earlier ++ sent attempt req took ∷ rest))
      × All IsInner earlier
      × (pos_part ttl ≤ spent earlier)

  with_lock-outlives :
      (replace : Bool) (key message : Text) (ttl b : ℤ) (req req' : HttpRequest) (took took' : ℕ)
      (rest : List Event) (body : Result × List Event)
      → pos_part ttl ≤ took + pos_part b
      → body.1 ≡ sent 1 req took ∷ logged message ∷ slept b ∷ sent 2 req' took' ∷ rest
      → SentLate 2 req' took' key ttl (with_lock held replace key ttl run_id body).1
  unfolding with_lock spent
  with_lock-outlives true key message ttl b req req' took took' rest body late e = rw e (
    logged (codes "trigger: replaced previous holder")
        ∷ sent 1 req took
        ∷ logged message
        ∷ slept b
        ∷ [],
    rest ++ released ∷ [],
    refl,
    (tt, (tt, (tt, (tt, tt)))),
    omega arith,
  )
  with_lock-outlives false key message ttl b req req' took took' rest body late e = rw e (
    sent 1 req took ∷ logged message ∷ slept b ∷ [],
    rest ++ released ∷ [],
    refl,
    (tt, (tt, (tt, tt))),
    omega arith,
  )

  -- The lock does not cover retries: where the lock is taken, the first attempt is to be retried,
  -- its wait is not cancelled, and the first request and the back-off together take the lock's time
  -- of one timeout and thirty seconds, the second request is sent when that time has passed, with
  -- the lock neither released nor taken again before.
  pub run_locked-outlives :
      (lock : Bool → Text → ℤ → ℤ → Acquired) (req req' : HttpRequest) (took took' : ℕ)
      → w.lock ≡ some lock
      → ((replace : Bool) (key : Text) (ttl wait : ℤ) → lock replace key ttl wait ≡ held)
      → equal spec.job.policy.concurrency (codes "Allow") ≡ false
      → 2 ≤ attempts_of spec.job.policy.retries.max_attempts
      → classify (fire w secrets spec run_id 1 times).0 ≡ retry
      → w.cancelled 1 ≡ false
      → Sends 1 req took
      → Sends 2 req' took'
      → pos_part (add64 (seconds spec.job.policy.timeout_seconds) 30000000000)
        ≤ took
          + pos_part (
              compute_backoff 1
                (seconds spec.job.policy.retries.min_seconds)
                (seconds spec.job.policy.retries.max_seconds))
      → SentLate 2 req' took'
          (spec.app ++ (b'.' ∷ spec.job.name))
          (add64 (seconds spec.job.policy.timeout_seconds) 30000000000)
          (run_locked w secrets spec run_id times).1
  unfolding run_locked run_attempts
  run_locked-outlives lock req req' took took' e grants h m v c f g late =
      let most = attempts_of spec.job.policy.retries.max_attempts in
      let lo = seconds spec.job.policy.retries.min_seconds in
      let hi = seconds spec.job.policy.retries.max_seconds in
      let two : most ≡ suc (suc (most - 2)) = omega (arith, m) in
      let (message, rest, events) =
        loop-second most lo hi (most - 2) failed req req' took took' m v c f g in
      let body = ap (λ l. (loop most lo hi l 1 failed).1) two ∙ events in
      simp (h, e, run_locked, grants)
        (with_lock-outlives (equal spec.job.policy.concurrency (codes "Replace"))
          (spec.app ++ (b'.' ∷ spec.job.name)) message
          (add64 (seconds spec.job.policy.timeout_seconds) 30000000000) (compute_backoff 1 lo hi)
          req req' took took' rest (run_attempts w secrets spec run_id times) late body)
