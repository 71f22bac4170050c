-- ===== src/Trigger/Run/Attempts.antt =====
-- How the retry loop ends: by its first attempt that is not to be retried.
use cronix.Prelude.{
  ℕ, zero, suc, List, ◌≡◌, false, ◌⊎◌, none, inl, inr, ◌≤◌, Bool-cases, ◌+◌, ◌-◌, ltb, ◌<◌, ◌∙◌,
  arith, refl,
}
use cronix.Trigger.{exit_ok, exit_app_rejected, exit_internal}
use cronix.Trigger.Spec.{SpecFile}
use cronix.Trigger.Run.{
  World, FireTimes, Fired, fire, Verdict, success, app_rejected, retry, classify, status_of, Result,
  Event, attempt_loop, attempts_of, run_attempts, wait_then, failed, answered, panic,
}
use cronix.Prelude.Text.{Text}
use cronix.Prelude.Int.{ℤ, pos, negsuc}

-- How an attempt that is not retried ends the run.
abbrev pub end_code : Verdict → ℕ
end_code success = exit_ok
end_code app_rejected = exit_app_rejected
end_code _ = exit_internal

pub attempts_of-pos : (n : ℤ) → 1 ≤ attempts_of n
unfolding attempts_of
attempts_of-pos (pos n) = omega arith
attempts_of-pos (negsuc n) = omega arith

module _ (w : World) (secrets : List Text) (spec : SpecFile) (run_id : Text)
    (times : FireTimes) where
  abbrev pub outcome : ℕ → Fired
  outcome i = (fire w secrets spec run_id i times).0

  -- Attempts `from` to `from + k - 1` are to be retried, and no wait behind them is cancelled.
  abbrev pub Retried : ℕ → ℕ → Type 0
  Retried from zero = Unit
  Retried from (suc k) =
      (classify (outcome from) ≡ retry) × (w.cancelled from ≡ false) × Retried (suc from) k

  abbrev pub IsEnd : Verdict → Type 0
  IsEnd v = (v ≡ success) ⊎ (v ≡ app_rejected)

  module _ (max_attempts : ℕ) (lo hi : ℤ) where
    abbrev loop : ℕ → ℕ → Fired → Result × List Event
    loop = attempt_loop w secrets spec run_id times max_attempts lo hi

    loop-end :
        (left attempt : ℕ) (last : Fired)
        → IsEnd (classify (outcome attempt))
        → (loop (suc left) attempt last).0 ≡ record {
          exit_code = end_code (classify (outcome attempt));
          run_id = run_id;
          attempts = attempt;
          status = status_of (outcome attempt);
          err = none;
        }
    unfolding attempt_loop
    loop-end left attempt last (inl e) = rw e
    loop-end left attempt last (inr e) = rw e

    loop-retry :
        (left attempt : ℕ) (last : Fired)
        → classify (outcome attempt) ≡ retry
        → w.cancelled attempt ≡ false
        → (loop (suc left) attempt last).0 ≡ (loop left (suc attempt) (outcome attempt)).0
    unfolding attempt_loop
    loop-retry left attempt last e c = rw e (elim (Bool-cases (ltb attempt max_attempts)) [
      | inl more ↦ rw (more, c, wait_then)
      | inr last_one ↦ rw last_one
    ])

    loop-first :
        (k left attempt n : ℕ) (last : Fired)
        → Retried attempt k
        → attempt + k ≡ n
        → k < left
        → IsEnd (classify (outcome n))
        → (loop left attempt last).0 ≡ record {
          exit_code = end_code (classify (outcome n));
          run_id = run_id;
          attempts = n;
          status = status_of (outcome n);
          err = none;
        }
    loop-first k zero attempt n last r e h v = elim h [ ]
    loop-first zero (suc left) attempt n last r e h v =
        let same : n ≡ attempt = omega arith in rw same (loop-end left attempt last (rw same at v))
    loop-first (suc k) (suc left) attempt n last r e h v =
        loop-retry left attempt last r.0 r.1
        ∙ loop-first k left (suc attempt) n (outcome attempt) r.2 (omega arith) (omega arith) v

  -- How an attempt that ends the run was answered, and the exit code for it.
  abbrev pub Ends : ℕ → ℕ → Type 0
  Ends code exit =
      ((200 ≤ code) × (code < 300) × (exit ≡ 0)) ⊎ ((400 ≤ code) × (code < 500) × (exit ≡ 1))

  -- An attempt without an answer, or with a status that is neither 2xx nor 4xx.
  abbrev pub IsTransient : Fired → Type 0
  IsTransient (answered code) = ((code < 200) ⊎ (300 ≤ code)) × ((code < 400) ⊎ (500 ≤ code))
  IsTransient failed = Unit
  IsTransient panic = ⊥

  -- Attempts `from` to `from + k - 1` are transient, and no wait behind them is cancelled.
  abbrev pub Transient : ℕ → ℕ → Type 0
  Transient from zero = Unit
  Transient from (suc k) =
      IsTransient (outcome from) × (w.cancelled from ≡ false) × Transient (suc from) k

  classify-Ends :
      (code exit : ℕ)
      → Ends code exit
      → IsEnd (classify (answered code)) × (end_code (classify (answered code)) ≡ exit)
  unfolding classify
  classify-Ends code exit h = ground arith

  classify-IsTransient : (f : Fired) → IsTransient f → classify f ≡ retry
  unfolding classify
  classify-IsTransient (answered code) h = ground arith
  classify-IsTransient failed h = refl
  classify-IsTransient panic h = elim h [ ]

  Transient-Retried : (from k : ℕ) → Transient from k → Retried from k
  Transient-Retried from zero h = tt
  Transient-Retried from (suc k) h =
      (classify-IsTransient (outcome from) h.0, h.1, Transient-Retried (suc from) k h.2)

  -- The run ends at its first attempt `n` that is answered by a 2xx or a 4xx status: with exit code
  -- 0 or 1, `n` attempts, the status of that attempt and no error, if the attempts before it got no
  -- answer or another status and no wait behind them is cancelled.
  pub run_attempts-first :
      (n code exit : ℕ)
      → 1 ≤ n
      → n ≤ attempts_of spec.job.policy.retries.max_attempts
      → Transient 1 (n - 1)
      → outcome n ≡ answered code
      → Ends code exit
      → (run_attempts w secrets spec run_id times).0
        ≡ record { exit_code = exit; run_id = run_id; attempts = n; status = code; err = none }
  unfolding run_attempts
  run_attempts-first n code exit h b r o ends =
      let (end, exits) = classify-Ends code exit ends in
      loop-first _ _ _ (n - 1) _ 1 n failed (Transient-Retried 1 (n - 1) r) (omega arith)
        (omega arith) (rw o end)
      ∙ rw (o, exits) refl
