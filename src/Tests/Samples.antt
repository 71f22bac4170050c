-- ===== src/Tests/Samples.antt =====
-- A job, its manifest and its spec file.
use cronix.Prelude.{[], ◌∷◌, none, some}
use cronix.Prelude.Int.{pos}
use cronix.Prelude.Text.{codes}
use cronix.Manifest.{Parsers, Request, Job, Manifest, NormalizedJob, NormalizedManifest}
use cronix.Trigger.Spec.{SpecFile}

-- Parsers that accept every cron expression and URL.
abbrev pub sample_parsers : Parsers
sample_parsers = record {
  cron_error = λ s. none;
  parse_url = λ s. some (record { scheme = codes "https"; host = codes "app.example" });
}

abbrev pub raw_request : Request
raw_request = record {
  method = none;
  url = codes "https://app.example/jobs/report";
  headers = [];
  body = none;
}

abbrev pub raw_job : Job
raw_job = record {
  name = codes "report";
  schedule = some (codes "@hourly");
  schedules = none;
  timezone = none;
  request = raw_request;
  policy = none;
  auth = none;
}

abbrev pub raw_manifest : Manifest
raw_manifest = record { version = pos 1; app = codes "billing"; jobs = raw_job ∷ [] }

abbrev pub sample_job : NormalizedJob
sample_job = record {
  name = codes "report";
  schedules = codes "@hourly" ∷ [];
  timezone = codes "UTC";
  request = record {
    method = codes "POST";
    url = codes "https://app.example/jobs/report";
    headers = [];
    body = [];
  };
  policy = record {
    concurrency = codes "Forbid";
    concurrency_scope = codes "global";
    timeout_seconds = pos 60;
    retries = record { max_attempts = pos 3; min_seconds = pos 1; max_seconds = pos 60 };
  };
  auth = record { secret_refs = [] };
}

abbrev pub sample_manifest : NormalizedManifest
sample_manifest = record { version = pos 1; app = codes "billing"; jobs = sample_job ∷ [] }

abbrev pub sample_spec : SpecFile
sample_spec = record {
  app = codes "billing";
  job = sample_job;
  secret_refs = codes "env:SECRET" ∷ [];
  schedule_index = 0;
}
