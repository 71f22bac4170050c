-- ===== src/Manifest.antt =====
-- go/internal/manifest/manifest.go: the data of a manifest, raw and normalized, and the limits.
-- A Go `int` is an integer, a pointer or a slice that may be nil is an `Option`, and a map of
-- headers is the list of its pairs.
pub mod Cron
pub mod Validate
pub mod Defaults
pub mod Canonical
use cronix.Prelude.{ℕ, Option, List}
use cronix.Prelude.Int.{ℤ, pos}
use cronix.Prelude.Text.{Text}

abbrev pub timeout_min : ℤ
timeout_min = pos 1

abbrev pub timeout_max : ℤ
timeout_max = pos 600

abbrev pub timeout_default : ℤ
timeout_default = pos 60

abbrev pub retry_attempts_min : ℤ
retry_attempts_min = pos 1

abbrev pub retry_attempts_max : ℤ
retry_attempts_max = pos 10

abbrev pub retry_attempts_default : ℤ
retry_attempts_default = pos 3

abbrev pub retry_backoff_min_default : ℤ
retry_backoff_min_default = pos 1

abbrev pub retry_backoff_max_default : ℤ
retry_backoff_max_default = pos 60

abbrev pub max_jobs : ℕ
max_jobs = 256

abbrev pub max_schedules_per_job : ℕ
max_schedules_per_job = 64

abbrev pub max_secret_refs : ℕ
max_secret_refs = 8

pub record Request : Type 0 where
  pub method : Option Text
  pub url : Text
  pub headers : List (Text × Text)
  pub body : Option Text

pub record Retries : Type 0 where
  pub max_attempts : Option ℤ
  pub min_seconds : Option ℤ
  pub max_seconds : Option ℤ

pub record Policy : Type 0 where
  pub concurrency : Option Text
  pub concurrency_scope : Option Text
  pub timeout_seconds : Option ℤ
  pub retries : Option Retries

pub record Auth : Type 0 where
  pub secret_refs : Option (List Text)

pub record Job : Type 0 where
  pub name : Text
  pub schedule : Option Text
  pub schedules : Option (List Text)
  pub timezone : Option Text
  pub request : Request
  pub policy : Option Policy
  pub auth : Option Auth

pub record Manifest : Type 0 where
  pub version : ℤ
  pub app : Text
  pub jobs : List Job

pub record NormalizedRequest : Type 0 where
  pub method : Text
  pub url : Text
  pub headers : List (Text × Text)
  pub body : Text

pub record NormalizedRetries : Type 0 where
  pub max_attempts : ℤ
  pub min_seconds : ℤ
  pub max_seconds : ℤ

pub record NormalizedPolicy : Type 0 where
  pub concurrency : Text
  pub concurrency_scope : Text
  pub timeout_seconds : ℤ
  pub retries : NormalizedRetries

pub record NormalizedAuth : Type 0 where
  pub secret_refs : List Text

pub record NormalizedJob : Type 0 where
  pub name : Text
  pub schedules : List Text
  pub timezone : Text
  pub request : NormalizedRequest
  pub policy : NormalizedPolicy
  pub auth : NormalizedAuth

pub record NormalizedManifest : Type 0 where
  pub version : ℤ
  pub app : Text
  pub jobs : List NormalizedJob

-- A single validation problem.
pub record Issue : Type 0 where
  pub path : List Text
  pub message : Text
  pub code : Text

-- What `url.Parse` returns of a URL, as far as the program reads it.
pub record Url : Type 0 where
  pub scheme : Text
  pub host : Text

-- The parsers that the package calls: the parser of five-field cron expressions of robfig/cron,
-- with the text of its error, and `net/url`, where `none` is an error.
pub record Parsers : Type 0 where
  pub cron_error : Text → Option Text
  pub parse_url : Text → Option Url
