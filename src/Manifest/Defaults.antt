-- ===== src/Manifest/Defaults.antt =====
-- go/internal/manifest/manifest.go: `ApplyDefaults`, `defaultInt` and `sortedHeaders`.
pub mod Bounds
use cronix.Prelude.{ℕ, Option, none, some, List, [], ◌∷◌, map}
use cronix.Prelude.Int.{ℤ, pos}
use cronix.Prelude.Sort.{sort_by}
use cronix.Prelude.Text.{Text, codes, trim_space}
use cronix.Manifest.{
  Request, Retries, Policy, Auth, Job, Manifest, NormalizedRequest, NormalizedRetries,
  NormalizedPolicy, NormalizedAuth, NormalizedJob, NormalizedManifest, timeout_default,
  retry_attempts_default, retry_backoff_min_default, retry_backoff_max_default,
}

-- `*p`, or the default
unfoldable pub default_to : {A : Type 0} → A → Option A → A
default_to d none = d
default_to d (some v) = v

unfoldable pub default_int : Option ℤ → ℤ → ℤ
unfolding default_to
default_int p d = default_to d p

-- The map as the list of its pairs by ascending key, the order in which it is serialized.
unfoldable pub sorted_headers : List (Text × Text) → List (Text × Text)
sorted_headers headers = sort_by (λ h. h.0) headers

unfoldable pub job_schedules : Option (List Text) → Option Text → List Text
job_schedules (some ss) _ = map trim_space ss
job_schedules none (some s) = trim_space s ∷ []
job_schedules none none = []

-- `var p Policy`, `var r Retries`: the zero values
abbrev no_policy : Policy
no_policy = record {
  concurrency = none;
  concurrency_scope = none;
  timeout_seconds = none;
  retries = none;
}

abbrev no_retries : Retries
no_retries = record { max_attempts = none; min_seconds = none; max_seconds = none }

unfoldable pub normalize_request : Request → NormalizedRequest
unfolding default_to
normalize_request r = record {
  method = default_to (codes "POST") r.method;
  url = r.url;
  headers = sorted_headers r.headers;
  body = default_to [] r.body;
}

unfoldable pub normalize_retries : Retries → NormalizedRetries
unfolding default_int
normalize_retries r = record {
  max_attempts = default_int r.max_attempts retry_attempts_default;
  min_seconds = default_int r.min_seconds retry_backoff_min_default;
  max_seconds = default_int r.max_seconds retry_backoff_max_default;
}

unfoldable pub normalize_policy : Policy → NormalizedPolicy
unfolding default_to normalize_retries
normalize_policy p = record {
  concurrency = default_to (codes "Forbid") p.concurrency;
  concurrency_scope = default_to (codes "host") p.concurrency_scope;
  timeout_seconds = default_to timeout_default p.timeout_seconds;
  retries = normalize_retries (default_to no_retries p.retries);
}

unfoldable pub normalize_auth : Option Auth → NormalizedAuth
unfolding default_to
normalize_auth none = record { secret_refs = [] }
normalize_auth (some a) = record { secret_refs = default_to [] a.secret_refs }

-- The body of the loop over the jobs.
unfoldable pub normalize_job : Job → NormalizedJob
unfolding default_to normalize_request normalize_policy normalize_auth job_schedules
normalize_job j = record {
  name = j.name;
  schedules = job_schedules j.schedules j.schedule;
  timezone = default_to (codes "UTC") j.timezone;
  request = normalize_request j.request;
  policy = normalize_policy (default_to no_policy j.policy);
  auth = normalize_auth j.auth;
}

unfoldable pub apply_defaults : Manifest → NormalizedManifest
unfolding normalize_job
apply_defaults m = record {
  version = pos 1;
  app = m.app;
  jobs = sort_by (λ j. j.name) (map normalize_job m.jobs);
}
