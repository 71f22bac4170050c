-- ===== src/History/Messages.antt =====
-- What the history says of the messages that the shim logs.
use cronix.Prelude.{
  [], ◌∷◌, ℕ, zero, suc, List, ◌++◌, ◌≡◌, refl, true, Bool-cases, ltb, inl, inr, some, ◌⊎◌, ap, ◌∙◌,
  ◌==◌, if◌then◌else◌,
}
use cronix.Prelude.Text.{Text, codes, equal}
use cronix.Prelude.Int.{ℤ}
use cronix.History.{classify_shim_event}
use cronix.Trigger.{compute_backoff, exit_internal}
use cronix.Trigger.Spec.{SpecFile}
use cronix.Trigger.Run.{
  status_of, retry_message, World, FireTimes, Fired, Result, Event, acquired, released, sent, slept,
  logged, Verdict, success, app_rejected, retry, crash, fire, classify, wait_then, attempt_loop,
  run_attempts,
}

-- The last message of the events, `m` if there is none.
abbrev pub last_message : Text → List Event → Text
last_message m [] = m
last_message m (logged n ∷ events) = last_message n events
last_message m (acquired key ttl ∷ events) = last_message m events
last_message m (released ∷ events) = last_message m events
last_message m (sent attempt req took ∷ events) = last_message m events
last_message m (slept d ∷ events) = last_message m events

last_message-append :
    (m : Text) (xs ys : List Event)
    → last_message m (xs ++ ys) ≡ last_message (last_message m xs) ys
last_message-append m [] ys = refl
last_message-append m (logged n ∷ xs) ys = last_message-append n xs ys
last_message-append m (acquired key ttl ∷ xs) ys = last_message-append m xs ys
last_message-append m (released ∷ xs) ys = last_message-append m xs ys
last_message-append m (sent attempt req took ∷ xs) ys = last_message-append m xs ys
last_message-append m (slept d ∷ xs) ys = last_message-append m xs ys

-- The exit code is the one of an internal error, or the last message is terminal with the status
-- of the exit code, whatever the message before the events.
abbrev pub IsReported : ℕ → List Event → Type 0
IsReported code events =
    (code ≡ exit_internal)
    ⊎ ((m : Text)
        → classify_shim_event (last_message m events)
          ≡ some (if code == 0 then codes "ok" else codes "failed", true))

IsReported-append :
    (code : ℕ) (xs ys : List Event) → IsReported code ys → IsReported code (xs ++ ys)
IsReported-append code xs ys (inl e) = inl e
IsReported-append code xs ys (inr f) =
    inr (λ m. ap classify_shim_event (last_message-append m xs ys) ∙ f (last_message m xs))

IsReported-logged :
    (code : ℕ) (n : Text) (ys : List Event) → IsReported code ys → IsReported code (logged n ∷ ys)
IsReported-logged code n ys (inl e) = inl e
IsReported-logged code n ys (inr f) = inr (λ m. f n)

-- The outcome of a run is reported.
abbrev pub Reports : Result × List Event → Type 0
Reports o = IsReported o.0.exit_code o.1

module _ (w : World) (secrets : List Text) (spec : SpecFile) (run_id : Text)
    (times : FireTimes) where
  wait_then-IsReported :
      (attempt last_status : ℕ) (backoff : ℤ) (later : Result × List Event)
      → Reports later
      → Reports (wait_then w run_id attempt backoff last_status later)
  unfolding wait_then
  wait_then-IsReported attempt last_status backoff later h =
      elim (Bool-cases (w.cancelled attempt)) [
        | inl stopped ↦ rw (stopped, wait_then) (inl refl)
        | inr waited ↦ rw (waited, wait_then) (IsReported-append _ (slept backoff ∷ []) later.1 h)
      ]

  attempt_loop-IsReported :
      (most : ℕ) (lo hi : ℤ) (left attempt : ℕ) (last : Fired)
      → Reports (attempt_loop w secrets spec run_id times most lo hi left attempt last)
  unfolding attempt_loop classify_shim_event equal
  attempt_loop-IsReported most lo hi zero attempt last = inr (λ m. refl)
  attempt_loop-IsReported most lo hi (suc left) attempt last =
      by_verdict (classify (fire w secrets spec run_id attempt times).0) refl (
        attempt_loop-IsReported most lo hi left (suc attempt)
          (fire w secrets spec run_id attempt times).0)
    where
      events : List Event
      events = (fire w secrets spec run_id attempt times).1

      fired : Fired
      fired = (fire w secrets spec run_id attempt times).0

      later : Result × List Event
      later = attempt_loop w secrets spec run_id times most lo hi left (suc attempt) fired

      waited : Result × List Event
      waited = wait_then w run_id attempt (compute_backoff attempt lo hi) (status_of fired) later

      by_verdict :
          (v : Verdict)
          → classify (fire w secrets spec run_id attempt times).0 ≡ v
          → Reports (
              attempt_loop w secrets spec run_id times most lo hi left
                (suc attempt)
                (fire w secrets spec run_id attempt times).0)
          → Reports (attempt_loop w secrets spec run_id times most lo hi (suc left) attempt last)
      by_verdict success e h = rw (e, attempt_loop) (IsReported-append _ events _ (inr (λ m. refl)))
      by_verdict app_rejected e h =
          rw (e, attempt_loop) (IsReported-append _ events _ (inr (λ m. refl)))
      by_verdict crash e h = rw (e, attempt_loop) (inl refl)
      by_verdict retry e h = elim (Bool-cases (ltb attempt most)) [
        | inl more ↦
            rw (e, more, attempt_loop)
              (IsReported-append _ events _ (
                IsReported-logged waited.0.exit_code (retry_message fired) waited.1
                  (wait_then-IsReported attempt _ _ _ h)))
        | inr last_one ↦
            rw (e, last_one, attempt_loop)
              (IsReported-append _ events _
                (IsReported-logged later.0.exit_code (retry_message fired) later.1 h))
      ]

  -- The attempts of a run end with exit code 3, or with a last message that the history classifies
  -- as terminal: with the status "ok" if the exit code is 0, and "failed" otherwise.
  pub run_attempts-IsReported : Reports (run_attempts w secrets spec run_id times)
  unfolding run_attempts
  run_attempts-IsReported = attempt_loop-IsReported _ _ _ _ _ _
