-- ===== src/Tests/Manifests.antt =====
-- A manifest that is valid, and its normalized form.
use cronix.Manifest.Cron.{validate_schedule}
use cronix.Prelude.{refl, none, some, [], ◌∷◌, length, All, ◌↔◌, ◌≡◌, arith}
use cronix.Prelude.Int.{pos, ◌<ℤ◌}
use cronix.Prelude.Text.{codes, contains, equal, trim_space}
use cronix.Prelude.Sort.{Ascending}
use cronix.Manifest.{NormalizedJob, Retries}
use cronix.Manifest.Validate.{
  validate, validate_retries, manifest_issues, match_id, job_issues, validate_job,
  job_schedule_issues, validate_request, find_seen,
}
use cronix.Manifest.Validate.WellFormed.{IsWellFormed, validate-IsWellFormed}
use cronix.Manifest.Defaults.{apply_defaults, normalize_retries}
use cronix.Manifest.Defaults.Bounds.{IsNormal, apply_defaults-IsNormal, normalize_retries-unordered}
use cronix.Tests.Samples.{raw_manifest, sample_parsers}

validate-IsWellFormed_example :
    (validate sample_parsers raw_manifest ≡ none) ↔ IsWellFormed sample_parsers raw_manifest
validate-IsWellFormed_example = validate-IsWellFormed sample_parsers raw_manifest

apply_defaults-IsNormal_example :
    (length (apply_defaults raw_manifest).jobs ≡ 1)
    × Ascending (λ (j : NormalizedJob). j.name) (apply_defaults raw_manifest).jobs
    × All IsNormal (apply_defaults raw_manifest).jobs
unfolding validate manifest_issues match_id job_issues validate_job job_schedule_issues
    validate_schedule contains equal trim_space validate_request find_seen
apply_defaults-IsNormal_example = apply_defaults-IsNormal sample_parsers raw_manifest refl

abbrev long_wait : Retries
long_wait = record { max_attempts = none; min_seconds = some (pos 90); max_seconds = none }

normalize_retries-unordered_example :
    (validate_retries (codes "retries" ∷ []) long_wait ≡ [])
    × ((normalize_retries long_wait).max_seconds <ℤ (normalize_retries long_wait).min_seconds)
normalize_retries-unordered_example =
    normalize_retries-unordered (codes "retries" ∷ []) 90 (omega arith)
