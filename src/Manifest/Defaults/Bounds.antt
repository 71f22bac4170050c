-- ===== src/Manifest/Defaults/Bounds.antt =====
-- What the normalized form of a valid manifest satisfies, and where its back-off range is empty.
use cronix.Prelude.{
  ℕ, suc, ◌≤◌, ◌<◌, true, Option, none, some, List, [], ◌∷◌, ◌≡◌, refl, length, All, map, arith, ap,
  ◌∙◌,
}
use cronix.Prelude.Int.{pos, ◌≤ℤ◌, ◌<ℤ◌}
use cronix.Prelude.Sort.{Ascending, length-sort_by, All-sort_by, Ascending-sort_by}
use cronix.Prelude.Text.{Text, contains, equal, trim_space}
use cronix.Manifest.Validate.{
  match_id, http_methods, concurrency_values, concurrency_scopes, match_secret_ref, validate,
  validate_retries,
}
use cronix.Manifest.Validate.WellFormed.{
  Given, Between, IsRetries, IsPolicy, IsRequest, IsAuth, IsScheduled, IsJob, validate-IsWellFormed,
}
use cronix.Manifest.Defaults.{
  normalize_job, normalize_retries, normalize_policy, normalize_request, normalize_auth,
  job_schedules, apply_defaults, default_to, no_policy, no_retries,
}
use cronix.Manifest.{
  Parsers, Retries, Policy, Request, Auth, Job, Manifest, NormalizedJob, timeout_min, timeout_max,
  retry_attempts_min, retry_attempts_max, max_schedules_per_job, max_secret_refs,
}

pub record IsNormal (j : NormalizedJob) : Type 0 where
  pub name_id : match_id j.name ≡ true
  pub some_schedule : 1 ≤ length j.schedules
  pub few_schedules : length j.schedules ≤ max_schedules_per_job
  pub method_known : contains http_methods j.request.method ≡ true
  pub concurrency_known : contains concurrency_values j.policy.concurrency ≡ true
  pub scope_known : contains concurrency_scopes j.policy.concurrency_scope ≡ true
  pub timeout_bounds : Between timeout_min timeout_max j.policy.timeout_seconds
  pub attempts_bounds : Between retry_attempts_min retry_attempts_max j.policy.retries.max_attempts
  pub min_bound : pos 0 ≤ℤ j.policy.retries.min_seconds
  pub max_bound : pos 1 ≤ℤ j.policy.retries.max_seconds
  pub few_refs : length j.auth.secret_refs ≤ max_secret_refs

length-map : {A B : Type 0} (f : A → B) (xs : List A) → length (map f xs) ≡ length xs
length-map f [] = refl
length-map f (x ∷ xs) = ap suc (length-map f xs)

job_schedules_bounds :
    (ext : Parsers) (schedule : Option Text) (schedules : Option (List Text))
    → IsScheduled ext schedule schedules
    → (1 ≤ length (job_schedules schedules schedule))
      × (length (job_schedules schedules schedule) ≤ max_schedules_per_job)
unfolding job_schedules
job_schedules_bounds ext none none h = absurd h
job_schedules_bounds ext (some s) none h = omega arith
job_schedules_bounds ext none (some ss) h = ground (arith, length-map trim_space ss)
job_schedules_bounds ext (some s) (some ss) h = absurd h

-- A default satisfies what a given value does.
default_to-Given :
    {A : Type 0} (P : A → Type 0) (d : A) (o : Option A) → P d → Given P o → P (default_to d o)
unfolding default_to
default_to-Given P d none p h = p
default_to-Given P d (some v) p h = h

normalize_retries-bounds :
    (r : Retries)
    → IsRetries r
    → Between retry_attempts_min retry_attempts_max (normalize_retries r).max_attempts
      × (pos 0 ≤ℤ (normalize_retries r).min_seconds)
      × (pos 1 ≤ℤ (normalize_retries r).max_seconds)
unfolding normalize_retries
normalize_retries-bounds r h = ground arith

normalize_policy-bounds :
    (p : Policy)
    → IsPolicy p
    → (contains concurrency_values (normalize_policy p).concurrency ≡ true)
      × (contains concurrency_scopes (normalize_policy p).concurrency_scope ≡ true)
      × Between timeout_min timeout_max (normalize_policy p).timeout_seconds
      × IsRetries (default_to no_retries p.retries)
unfolding normalize_policy contains equal
normalize_policy-bounds p (conc, scope, timeout, retries) = (
  default_to-Given (λ c. contains concurrency_values c ≡ true) _ p.concurrency refl conc,
  default_to-Given (λ c. contains concurrency_scopes c ≡ true) _ p.concurrency_scope refl scope,
  default_to-Given (Between timeout_min timeout_max) _ p.timeout_seconds (omega arith) timeout,
  default_to-Given IsRetries no_retries p.retries (tt, tt, tt, tt) retries,
)

normalize_request-method :
    (ext : Parsers) (r : Request)
    → IsRequest ext r
    → contains http_methods (normalize_request r).method ≡ true
unfolding normalize_request contains equal
normalize_request-method ext r (_, _, known) =
    default_to-Given (λ m. contains http_methods m ≡ true) _ r.method refl known

normalize_auth-few :
    (a : Option Auth) → Given IsAuth a → length (normalize_auth a).secret_refs ≤ max_secret_refs
unfolding normalize_auth
normalize_auth-few none h = omega arith
normalize_auth-few (some a) h = few a.secret_refs h
  where
    few :
        (refs : Option (List Text))
        → Given
            (λ r.
              (1 ≤ length r)
              × (length r ≤ max_secret_refs)
              × All (λ s. match_secret_ref s ≡ true) r)
            refs
        → length (default_to [] refs) ≤ max_secret_refs
    few none g = omega arith
    few (some r) g = g.1

normalize_job-IsNormal : (ext : Parsers) (j : Job) → IsJob ext j → IsNormal (normalize_job j)
unfolding normalize_job
normalize_job-IsNormal ext j (id, sched, req, pol, auth) =
    let policy = default_to-Given IsPolicy no_policy j.policy (tt, tt, tt, tt) pol in
    let (conc, scope, timeout, retries) =
      normalize_policy-bounds (default_to no_policy j.policy) policy in
    let (attempts, least, most) = normalize_retries-bounds _ retries in
    let (one, few) = job_schedules_bounds ext j.schedule j.schedules sched in
    record {
      name_id = id;
      some_schedule = one;
      few_schedules = few;
      method_known = normalize_request-method ext j.request req;
      concurrency_known = conc;
      scope_known = scope;
      timeout_bounds = timeout;
      attempts_bounds = attempts;
      min_bound = least;
      max_bound = most;
      few_refs = normalize_auth-few j.auth auth;
    }

All-map :
    {A B : Type 0} (P : A → Type 0) (Q : B → Type 0) (f : A → B) (xs : List A)
    → ((x : A) → P x → Q (f x))
    → All P xs
    → All Q (map f xs)
All-map P Q f [] k h = tt
All-map P Q f (x ∷ xs) k h = (k x h.0, All-map P Q f xs k h.1)

-- The normalized form of a manifest that `Validate` accepts has as many jobs, sorted by name. Each
-- has a well-formed name, 1 to 64 schedules, a known method, concurrency policy and scope, a
-- timeout of 1 to 600 seconds, 1 to 10 attempts, a minimum back-off of at least 0 and a maximum
-- of at least 1, and at most 8 secret references.
pub apply_defaults-IsNormal :
    (ext : Parsers) (m : Manifest)
    → validate ext m ≡ none
    → (length (apply_defaults m).jobs ≡ length m.jobs)
      × Ascending (λ (j : NormalizedJob). j.name) (apply_defaults m).jobs
      × All IsNormal (apply_defaults m).jobs
unfolding apply_defaults
apply_defaults-IsNormal ext m h =
    let (_, _, _, _, jobs, _) = (validate-IsWellFormed ext m).0 h in
    (
      length-sort_by _ (map normalize_job m.jobs) ∙ length-map normalize_job m.jobs,
      Ascending-sort_by _ (map normalize_job m.jobs),
      All-sort_by _ IsNormal _
          (All-map (IsJob ext) IsNormal normalize_job m.jobs (normalize_job-IsNormal ext) jobs),
    )

-- Retries with a minimum back-off above 60 seconds and no maximum pass the validation, and their
-- normalized form has a minimum above its maximum.
pub normalize_retries-unordered :
    (path : List Text) (lo : ℕ)
    → 60 < lo
    → let r : Retries = record {
      max_attempts = none;
      min_seconds = some (pos lo);
      max_seconds = none;
    } in
      (validate_retries path r ≡ [])
      × ((normalize_retries r).max_seconds <ℤ (normalize_retries r).min_seconds)
unfolding validate_retries normalize_retries
normalize_retries-unordered path lo h = ground arith
