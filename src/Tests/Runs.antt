-- ===== src/Tests/Runs.antt =====
-- Runs of the trigger against a server that fails once, or always.
use cronix.Auth.{sign}
use cronix.Prelude.{
  refl, none, some, [], ◌∷◌, All, ◌≡◌, ◌≢◌, ◌==◌, if◌then◌else◌, inl, false, arith, true, inr, List,
  ℕ,
}
use cronix.Prelude.Int.{pos, mul64}
use cronix.Prelude.Text.{codes, cut, equal}
use cronix.Trigger.{compute_backoff}
use cronix.Trigger.Backoff.{compute_backoff-min}
use cronix.Trigger.Secrets.{Sources, resolve_secrets, resolve_secrets-nonempty}
use cronix.Trigger.Spec.{parsed, load_spec-names, load_spec, SpecFile}
use cronix.Trigger.Run.{
  World, FireTimes, held, status, run_attempts, run_locked, attempts_of, classify, fire, add64,
  attempt_time, Event, HttpRequest, fire_with, sent, fire_signed,
}
use cronix.Trigger.Run.Attempts.{run_attempts-first}
use cronix.History.Messages.{Reports, run_attempts-IsReported}
use cronix.Trigger.Run.Locking.{IsGuarded}
use cronix.Tests.Samples.{sample_spec, sample_job}
use cronix.Trigger.Run.Lease.{run_locked-single, run_locked-outlives, SentLate}

abbrev times : FireTimes
times = record { intended = pos 1700000000; actual = pos 1700000001; previous_success = none }

-- The first attempt fails with status 503, the others succeed; the lock is free.
abbrev flaky : World
flaky = record {
  hmac = λ secret payload. [];
  clock = pos 1700000001;
  builds = λ method url. true;
  send = λ attempt req. if attempt == 1 then status 503 else status 200;
  took = λ attempt. 60000000000;
  cancelled = λ attempt. false;
  lock = some (λ replace key ttl wait. held);
}

abbrev broken : World
broken = record flaky { send = λ attempt req. status 500 }

compute_backoff-min_example : compute_backoff 4 (pos 1000000000) (pos 60000000000) ≡ pos 8000000000
compute_backoff-min_example =
    compute_backoff-min 3 1000000000 60000000000 (omega arith) (omega arith)

abbrev sources : Sources
sources = record { getenv = λ name. codes "s3"; read_file = λ path. none }

resolve_secrets-nonempty_example : (codes "s3" ∷ [] ≢ []) × All (λ s. s ≢ []) (codes "s3" ∷ [])
unfolding resolve_secrets cut equal
resolve_secrets-nonempty_example =
    resolve_secrets-nonempty sources (codes "env:SECRET" ∷ []) (codes "s3" ∷ []) refl

load_spec-names_example :
    (sample_spec.app ≡ codes "billing") × (sample_spec.job.name ≡ codes "report")
unfolding load_spec equal
load_spec-names_example =
    load_spec-names (λ path. parsed sample_spec) (λ dir name. name) [] [] (codes "billing")
      (codes "report") sample_spec refl

run_attempts-first_example :
    (run_attempts flaky (codes "s3" ∷ []) sample_spec (codes "id") times).0
    ≡ record { exit_code = 0; run_id = codes "id"; attempts = 2; status = 200; err = none }
unfolding attempts_of classify fire sign
run_attempts-first_example =
    run_attempts-first flaky (codes "s3" ∷ []) sample_spec (codes "id") times 2 200 0 (omega arith)
      (omega arith) ((inr (omega arith), inr (omega arith)), refl, tt) refl
      (inl (omega arith, omega arith, refl))

-- Each request takes a second.
abbrev quick : World
quick = record flaky { took = λ attempt. 1000000000 }

abbrev single_spec : SpecFile
single_spec = record sample_spec {
  job = record sample_job {
    policy = record sample_job.policy {
      retries = record sample_job.policy.retries { max_attempts = pos 1 };
    };
  };
}

run_locked-single_example :
    IsGuarded none (run_locked flaky (codes "s3" ∷ []) single_spec (codes "id") times).1
unfolding equal attempts_of mul64
run_locked-single_example =
    run_locked-single flaky (codes "s3" ∷ []) single_spec (codes "id") times
      (λ replace key ttl wait. held) 60000000000 refl refl refl refl (omega arith)

-- A job with a long back-off.
abbrev patient_spec : SpecFile
patient_spec = record sample_spec {
  job = record sample_job {
    policy = record sample_job.policy {
      retries = record sample_job.policy.retries { min_seconds = pos 30 };
    };
  };
}

-- The request of the first event.
abbrev request_of : List Event → HttpRequest
request_of (sent attempt req took ∷ events) = req
request_of _ = record { method = []; url = []; body = []; headers = [] }

abbrev request : ℕ → HttpRequest
request attempt =
    request_of (fire flaky (codes "s3" ∷ []) patient_spec (codes "id") attempt times).1

run_locked-outlives_example :
    SentLate flaky
      (codes "s3" ∷ [])
      patient_spec
      (codes "id")
      times
      2
      (request 2)
      60000000000
      (codes "billing.report")
      (pos 90000000000)
      (run_locked flaky (codes "s3" ∷ []) patient_spec (codes "id") times).1
unfolding equal attempts_of mul64 fire fire_with fire_signed sign classify attempt_time add64
    compute_backoff
run_locked-outlives_example =
    run_locked-outlives flaky (codes "s3" ∷ []) patient_spec (codes "id") times
      (λ replace key ttl wait. held) (request 1) (request 2) 60000000000 60000000000 refl
      (λ replace key ttl wait. refl) refl (omega arith) refl refl refl refl (omega arith)

run_attempts-IsReported_example :
    Reports (run_attempts flaky (codes "s3" ∷ []) sample_spec (codes "id") times)
run_attempts-IsReported_example =
    run_attempts-IsReported flaky (codes "s3" ∷ []) sample_spec (codes "id") times
