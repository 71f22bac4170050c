-- ===== src/Trigger/Run.antt =====
-- go/internal/trigger/shim.go: `fire` and `Run`. What the outside world answers is an argument, and
-- what the shim does to it is a list of events. Spans and log fields other than the message are
-- left out. A recovered panic ends the run as the deferred function does.
pub mod Attempts
pub mod Locking
pub mod Lease
use cronix.Prelude.{
  ℕ, zero, suc, [], Option, List, if◌then◌else◌, some, Bool, ◌∷◌, leb, none, ◌++◌, ◌&&◌, ltb, max,
  min, true, ◌/◌, false, ◌+◌,
}
use cronix.Auth.{Signed, signed, sign_error, SignOptions, sign, show_int}
use cronix.Manifest.{NormalizedJob, NormalizedRequest, NormalizedPolicy}
use cronix.Trigger.Secrets.{Resolved, resolved, unresolved, SecretError}
use cronix.Trigger.Spec.{SpecFile, Loaded, loaded, load_error, SpecError}
use cronix.Trigger.{
  exit_ok, exit_app_rejected, exit_retries_exhausted, exit_internal, exit_lock_contended, seconds,
  compute_backoff, req_path,
}
use cronix.Prelude.Text.{Text, codes, equal, to_upper}
use cronix.Prelude.Int.{ℤ, pos, int64, negsuc, sub_ℕ, pos_part, neg_part}
use cronix.Prelude.Text.Decimal.{decimal}

pub record HttpRequest : Type 0 where
  pub method : Text
  pub url : Text
  pub body : Text
  pub headers : List (Text × Text)

-- The outcome of `client.Do`: the status, or an error.
pub data Reply : Type 0 where
  status : ℕ → Reply
  no_reply : Reply

-- The outcome of `Acquire` and `AcquireOrReplace`.
pub data Acquired : Type 0 where
  held contended acquire_failed : Acquired

-- `acquired key ttl`: the lock is gone, unless it was released, once `ttl` nanoseconds have passed,
-- as nothing calls `Refresh`. `sent attempt req took`: the request, and the nanoseconds until its
-- answer or its error.
pub data Event : Type 0 where
  acquired : Text → ℤ → Event
  released : Event
  sent : ℕ → HttpRequest → ℕ → Event
  slept : ℤ → Event
  logged : Text → Event

pub data RunError : Type 0 where
  spec_failed : SpecError → RunError
  secrets_failed : SecretError → RunError
  run_id_failed lock_failed request_failed cancelled_wait panicked : RunError

pub record Result : Type 0 where
  pub exit_code : ℕ
  pub run_id : Text
  pub attempts : ℕ
  pub status : ℕ
  pub err : Option RunError

-- The world of one run: HMAC and the clock of the package auth, `http.NewRequestWithContext` (does
-- it accept the method and the URL), the server and the nanoseconds that it takes for the request of
-- an attempt, `select` on the context while the back-off of an attempt runs, and the lock, if one
-- is configured: `lock replace key ttl wait`. No other call takes time.
pub record World : Type 0 where
  pub hmac : Text → Text → Text
  pub clock : ℤ
  pub builds : Text → Text → Bool
  pub send : ℕ → HttpRequest → Reply
  pub took : ℕ → ℕ
  pub cancelled : ℕ → Bool
  pub lock : Option (Bool → Text → ℤ → ℤ → Acquired)

-- The times of a fire in Unix seconds.
pub record FireTimes : Type 0 where
  pub intended : ℤ
  pub actual : ℤ
  pub previous_success : Option ℤ

-- `strings.ToUpper(method)`, POST where it is empty
abbrev fire_method : Text → Text
fire_method [] = codes "POST"
fire_method (c ∷ cs) = to_upper (c ∷ cs)

previous_header : Option ℤ → List (Text × Text)
previous_header none = []
previous_header (some t) = (codes "X-Cron-Previous-Success-Time", show_int t) ∷ []

-- The calls of `req.Header.Set` in order; a later call on a name replaces an earlier one.
unfoldable pub fire_headers : SpecFile → Text → Text → ℕ → FireTimes → List (Text × Text)
unfolding previous_header
fire_headers spec run_id signature attempt times =
    (codes "X-Cron-Signature", signature)
    ∷ (codes "X-Cron-Run-Id", run_id)
    ∷ (codes "X-Cron-Schedule-Name", spec.job.name)
    ∷ (codes "X-Cron-Fire-Time", show_int times.intended)
    ∷ (codes "X-Cron-Fire-Time-Actual", show_int times.actual)
    ∷ (codes "X-Cron-Attempt", decimal attempt)
    ∷ (previous_header times.previous_success ++ spec.job.request.headers)

-- The status, an error, or the panic of `secrets[0]`; and the request, if one was sent.
pub data Fired : Type 0 where
  answered : ℕ → Fired
  failed : Fired
  panic : Fired

abbrev fired_reply : Reply → Fired
fired_reply (status code) = answered code
fired_reply no_reply = failed

-- `context.WithTimeout(attemptCtx, timeout)`: each attempt has the whole timeout.
unfoldable pub attempt_time : World → SpecFile → ℕ → ℕ
attempt_time w spec attempt =
    min (w.took attempt) (pos_part (seconds spec.job.policy.timeout_seconds))

unfoldable pub fire_signed : World → SpecFile → Text → ℕ → FireTimes → Signed → Fired × List Event
unfolding fire_headers attempt_time
fire_signed w spec run_id attempt times (sign_error err) = (failed, [])
fire_signed w spec run_id attempt times (signed header ts) =
    let req : HttpRequest = record {
      method = fire_method spec.job.request.method;
      url = spec.job.request.url;
      body = spec.job.request.body;
      headers = fire_headers spec run_id header attempt times;
    } in
    (fired_reply (w.send attempt req), sent attempt req (attempt_time w spec attempt) ∷ [])

-- The first secret signs; with none the index panics.
unfoldable pub fire_with : World → SpecFile → Text → ℕ → FireTimes → List Text → Fired × List Event
unfolding fire_signed
fire_with w spec run_id attempt times [] = (panic, [])
fire_with w spec run_id attempt times (secret ∷ secrets) = fire_signed w spec run_id attempt times (
    sign w.hmac w.clock (record {
      secret = secret;
      method = fire_method spec.job.request.method;
      path = req_path spec.job.request.url;
      body = spec.job.request.body;
      timestamp = times.actual;
    }))

unfoldable pub fire : World → List Text → SpecFile → Text → ℕ → FireTimes → Fired × List Event
unfolding fire_with
fire w secrets spec run_id attempt times =
    if w.builds (fire_method spec.job.request.method) spec.job.request.url
    then fire_with w spec run_id attempt times secrets
    else (failed, [])

-- What the `switch` makes of an attempt.
pub data Verdict : Type 0 where
  success app_rejected retry crash : Verdict

unfoldable pub classify : Fired → Verdict
classify (answered code) =
    if leb 200 code && ltb code 300
    then success
    else if leb 400 code && ltb code 500
    then app_rejected
    else retry
classify failed = retry
classify panic = crash

abbrev pub status_of : Fired → ℕ
status_of (answered code) = code
status_of _ = 0

abbrev error_of : Fired → Option RunError
error_of (answered code) = none
error_of _ = some request_failed

-- `logger.Warn` of a failed attempt
abbrev pub retry_message : Fired → Text
retry_message (answered code) = codes "trigger: server error"
retry_message _ = codes "trigger: attempt failed"

abbrev pub panic_result : Result
panic_result = record {
  exit_code = exit_internal;
  run_id = [];
  attempts = 0;
  status = 0;
  err = some panicked;
}

abbrev before : List Event → Result × List Event → Result × List Event
before events (result, later) = (result, events ++ later)

-- The wait behind an attempt that is to be retried.
unfoldable pub wait_then : World → Text → ℕ → ℤ → ℕ → Result × List Event → Result × List Event
wait_then w run_id attempt backoff last_status later =
    if w.cancelled attempt
    then (
      record {
        exit_code = exit_internal;
        run_id = run_id;
        attempts = attempt;
        status = last_status;
        err = some cancelled_wait;
      },
      [],
    )
    else before (slept backoff ∷ []) later

-- The retry loop: `left` attempts are left, the next one has the number `attempt`.
unfoldable pub attempt_loop :
    World
    → List Text
    → SpecFile
    → Text
    → FireTimes
    → ℕ
    → ℤ
    → ℤ
    → ℕ
    → ℕ
    → Fired
    → Result × List Event
unfolding classify wait_then
attempt_loop w secrets spec run_id times max_attempts min_backoff max_backoff zero attempt
      last_fired =
    (
      record {
        exit_code = exit_retries_exhausted;
        run_id = run_id;
        attempts = max_attempts;
        status = status_of last_fired;
        err = error_of last_fired;
      },
      logged (codes "trigger: retries exhausted") ∷ [],
    )
attempt_loop w secrets spec run_id times max_attempts min_backoff max_backoff (suc left) attempt
      last_fired =
    let (fired, events) = fire w secrets spec run_id attempt times in
    let later =
      attempt_loop w secrets spec run_id times max_attempts min_backoff max_backoff left
        (suc attempt) fired in
    before events (elim (classify fired) [
      | success ↦ (
        record {
          exit_code = exit_ok;
          run_id = run_id;
          attempts = attempt;
          status = status_of fired;
          err = none;
        },
        logged (codes "trigger: success") ∷ [],
      )
      | app_rejected ↦ (
        record {
          exit_code = exit_app_rejected;
          run_id = run_id;
          attempts = attempt;
          status = status_of fired;
          err = none;
        },
        logged (codes "trigger: app rejected") ∷ [],
      )
      | crash ↦ (panic_result, [])
      | retry ↦ before (logged (retry_message fired) ∷ []) (
          if ltb attempt max_attempts
          then wait_then w run_id attempt (compute_backoff attempt min_backoff max_backoff)
              (status_of fired) later
          else later)
    ])

-- `max(policy.Retries.MaxAttempts, 1)`
unfoldable pub attempts_of : ℤ → ℕ
attempts_of (pos n) = max n 1
attempts_of (negsuc n) = 1

unfoldable pub run_attempts : World → List Text → SpecFile → Text → FireTimes → Result × List Event
unfolding attempt_loop attempts_of
run_attempts w secrets spec run_id times =
    let retries = spec.job.policy.retries in
    let max_attempts = attempts_of retries.max_attempts in
    attempt_loop w secrets spec run_id times max_attempts (seconds retries.min_seconds)
      (seconds retries.max_seconds) max_attempts 1 failed

-- `a + b` on `int64`
unfoldable pub add64 : ℤ → ℕ → ℤ
add64 a b = int64 (sub_ℕ (pos_part a + b) (neg_part a))

-- `timeout / 2`, but at least five seconds
wait_for_exit : ℤ → ℤ
wait_for_exit (negsuc n) = pos 5000000000
wait_for_exit (pos n) = if ltb (n / 2) 5000000000 then pos 5000000000 else pos (n / 2)

abbrev lock_result : ℕ → Text → Option RunError → Result
lock_result code run_id err = record {
  exit_code = code;
  run_id = run_id;
  attempts = 0;
  status = 0;
  err = err;
}

contended_message : Bool → Text
contended_message true =
    codes "trigger: replace gave up "
    ++ (226 ∷ 128 ∷ 148 ∷ codes " holder non-local or refused SIGTERM")
contended_message false = codes "trigger: lock contended"

replaced_message : Bool → List Event
replaced_message true = logged (codes "trigger: replaced previous holder") ∷ []
replaced_message false = []

-- What follows the attempt to take the lock `key` for `ttl`; the release is deferred.
unfoldable pub with_lock :
    Acquired → Bool → Text → ℤ → Text → Result × List Event → Result × List Event
unfolding contended_message replaced_message
with_lock contended replace key ttl run_id body =
    (lock_result exit_lock_contended run_id none, logged (contended_message replace) ∷ [])
with_lock acquire_failed replace key ttl run_id body = (
  lock_result exit_internal run_id (some lock_failed),
  logged (codes "trigger: lock acquire") ∷ [],
)
with_lock held replace key ttl run_id (result, events) =
    (result, acquired key ttl ∷ (replaced_message replace ++ (events ++ released ∷ [])))

-- The concurrency policy, in front of the attempts.
unfoldable pub run_locked : World → List Text → SpecFile → Text → FireTimes → Result × List Event
unfolding with_lock add64 wait_for_exit
run_locked w secrets spec run_id times =
    let policy = spec.job.policy in
    let timeout = seconds policy.timeout_seconds in
    let replace = equal policy.concurrency (codes "Replace") in
    let key = spec.app ++ (b'.' ∷ spec.job.name) in
    let ttl = add64 timeout 30000000000 in
    let body = run_attempts w secrets spec run_id times in
    if equal policy.concurrency (codes "Allow") then body else elim w.lock [
      | none ↦ body
      | some lock ↦
          with_lock (lock replace key ttl (wait_for_exit timeout)) replace key ttl run_id body
    ]

-- The deferred `recover`, which runs after the deferred release.
recover_with : Option RunError → Result × List Event → Result × List Event
recover_with (some panicked) (result, events) =
    (result, events ++ logged (codes "trigger: panic") ∷ [])
recover_with _ outcome = outcome

unfoldable pub recovered : Result × List Event → Result × List Event
unfolding recover_with
recovered outcome = recover_with outcome.0.err outcome

-- `Run`, with the spec (given or loaded), the secrets of its references and the new run id, where
-- `none` is an error.
unfoldable pub run :
    World
    → Loaded
    → (List Text → Resolved (List Text))
    → Option Text
    → FireTimes
    → Result × List Event
unfolding run_locked recovered
run w spec resolve new_id times = elim spec [
  | load_error err ↦ (
    lock_result exit_internal [] (some (spec_failed err)),
    logged (codes "trigger: load spec") ∷ [],
  )
  | loaded file ↦ elim (resolve file.secret_refs) [
    | unresolved err ↦ (
      lock_result exit_internal [] (some (secrets_failed err)),
      logged (codes "trigger: resolve secrets") ∷ [],
    )
    | resolved secrets ↦ elim new_id [
      | none ↦ (
        lock_result exit_internal [] (some run_id_failed),
        logged (codes "trigger: gen run-id") ∷ [],
      )
      | some run_id ↦ recovered (run_locked w secrets file run_id times)
    ]
  ]
]
