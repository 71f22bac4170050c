-- ===== src/Manifest/Validate/WellFormed.antt =====
-- A description of the manifests that are valid, and the proof that `Validate` decides it.
use cronix.Prelude.{
  ℕ, suc, ◌≤◌, Bool, true, false, not, Option, none, some, List, [], ◌∷◌, ◌++◌, ◌≡◌, refl, ◌≢◌, ◌↔◌,
  length, All, arith,
}
use cronix.Prelude.Int.{ℤ, pos, ◌≤ℤ◌}
use cronix.Prelude.Text.{Text, codes, contains, equal_iff}
use cronix.Prelude.Text.Decimal.{decimal}
use cronix.Manifest.Cron.{validate_schedule}
use cronix.Manifest.{
  Issue, Parsers, Request, Retries, Policy, Auth, Job, Manifest, timeout_min, timeout_max,
  retry_attempts_min, retry_attempts_max, max_jobs, max_schedules_per_job, max_secret_refs,
}
use cronix.Manifest.Validate.{
  match_id, match_secret_ref, http_methods, concurrency_values, concurrency_scopes, bad_url, add_if,
  schedule_issue, schedule_issues, validate_request, validate_retries, validate_policy,
  secret_ref_issues, validate_auth, validate_job, find_seen, name_issue, see, job_issues,
  manifest_issues, validate, job_schedule_issues, issues_of_given, is_message,
}

-- What is given satisfies `P`.
abbrev pub Given : {A : Type 0} → (A → Type 0) → Option A → Type 0
Given P none = Unit
Given P (some v) = P v

abbrev pub Between : ℤ → ℤ → ℤ → Type 0
Between lo hi v = (lo ≤ℤ v) × (v ≤ℤ hi)

abbrev pub Ordered : Option ℤ → Option ℤ → Type 0
Ordered (some lo) (some hi) = lo ≤ℤ hi
Ordered _ _ = Unit

abbrev pub IsRetries : Retries → Type 0
IsRetries r =
    Given (Between retry_attempts_min retry_attempts_max) r.max_attempts
    × Given (λ v. pos 0 ≤ℤ v) r.min_seconds
    × Given (λ v. pos 1 ≤ℤ v) r.max_seconds
    × Ordered r.min_seconds r.max_seconds

abbrev pub IsPolicy : Policy → Type 0
IsPolicy p =
    Given (λ c. contains concurrency_values c ≡ true) p.concurrency
    × Given (λ c. contains concurrency_scopes c ≡ true) p.concurrency_scope
    × Given (Between timeout_min timeout_max) p.timeout_seconds
    × Given IsRetries p.retries

abbrev pub IsRequest : Parsers → Request → Type 0
IsRequest ext r =
    (r.url ≢ [])
    × (bad_url (ext.parse_url r.url) ≡ false)
    × Given (λ m. contains http_methods m ≡ true) r.method

abbrev pub IsAuth : Auth → Type 0
IsAuth a =
    Given
      (λ refs.
        (1 ≤ length refs)
        × (length refs ≤ max_secret_refs)
        × All (λ s. match_secret_ref s ≡ true) refs)
      a.secret_refs

abbrev pub IsSchedule : Parsers → Text → Type 0
IsSchedule ext s = validate_schedule ext s ≡ []

-- Exactly one of the two fields is given, and it is valid.
abbrev pub IsScheduled : Parsers → Option Text → Option (List Text) → Type 0
IsScheduled ext (some s) none = IsSchedule ext s
IsScheduled ext none (some ss) =
    (1 ≤ length ss) × (length ss ≤ max_schedules_per_job) × All (IsSchedule ext) ss
IsScheduled ext _ _ = ⊥

abbrev pub IsJob : Parsers → Job → Type 0
IsJob ext j =
    (match_id j.name ≡ true)
    × IsScheduled ext j.schedule j.schedules
    × IsRequest ext j.request
    × Given IsPolicy j.policy
    × Given IsAuth j.auth

-- No two jobs have the same name.
abbrev pub Distinct : List Job → Type 0
Distinct [] = Unit
Distinct (j ∷ js) = All (λ k. j.name ≢ k.name) js × Distinct js

abbrev pub IsWellFormed : Parsers → Manifest → Type 0
IsWellFormed ext m =
    (m.version ≡ pos 1)
    × (match_id m.app ≡ true)
    × (1 ≤ length m.jobs)
    × (length m.jobs ≤ max_jobs)
    × All (IsJob ext) m.jobs
    × Distinct m.jobs

append-eq-nil : {A : Type 0} (xs ys : List A) → (xs ++ ys ≡ []) ↔ ((xs ≡ []) × (ys ≡ []))
append-eq-nil [] ys = ((λ h. (refl, h)), (λ h. h.1))
append-eq-nil (x ∷ xs) ys = ((λ h. cc), (λ h. cc (h.0)))

-- Two parts add no issue exactly when each part adds none.
both_empty :
    {A P Q : Type 0} (xs ys : List A) → (xs ≡ []) ↔ P → (ys ≡ []) ↔ Q → (xs ++ ys ≡ []) ↔ (P × Q)
both_empty xs ys f g = (
  (λ h. let (a, b) = (append-eq-nil xs ys).0 h in (f.0 a, g.0 b)),
  (λ h. (append-eq-nil xs ys).1 (f.1 h.0, g.1 h.1)),
)

Given-empty :
    {A : Type 0} (validate_given : A → List Issue) (P : A → Type 0) (o : Option A)
    → ((v : A) → (validate_given v ≡ []) ↔ P v)
    → (issues_of_given validate_given o ≡ []) ↔ Given P o
unfolding issues_of_given
Given-empty validate_given P none f = ground arith
Given-empty validate_given P (some v) f = f v

add_if-eq-nil :
    (b : Bool) (path : List Text) (message code : Text)
    → (add_if b path message code ≡ []) ↔ (b ≡ false)
unfolding add_if
add_if-eq-nil b path message code = ground arith

add_unless-eq-nil :
    (b : Bool) (path : List Text) (message code : Text)
    → (add_if (not b) path message code ≡ []) ↔ (b ≡ true)
unfolding add_if
add_unless-eq-nil b path message code = ground arith

validate_retries-IsRetries :
    (path : List Text) (r : Retries) → (validate_retries path r ≡ []) ↔ IsRetries r
unfolding validate_retries
validate_retries-IsRetries path r = ground arith

validate_request-IsRequest :
    (ext : Parsers) (path : List Text) (r : Request)
    → (validate_request ext path r ≡ []) ↔ IsRequest ext r
unfolding validate_request
validate_request-IsRequest ext path r = ground arith

validate_policy-IsPolicy :
    (path : List Text) (p : Policy) → (validate_policy path p ≡ []) ↔ IsPolicy p
unfolding validate_policy
validate_policy-IsPolicy path p = validate_policy_of p.retries refl
  where
    validate_policy_of :
        (r : Option Retries) → p.retries ≡ r → (validate_policy path p ≡ []) ↔ IsPolicy p
    validate_policy_of none e = ground arith
    validate_policy_of (some r) e =
        ground (arith, validate_retries-IsRetries (path ++ codes "retries" ∷ []) r)

secret_ref_issues-eq-nil :
    (path : List Text) (i : ℕ) (refs : List Text)
    → (secret_ref_issues path i refs ≡ []) ↔ All (λ s. match_secret_ref s ≡ true) refs
unfolding secret_ref_issues
secret_ref_issues-eq-nil path i [] = ground arith
secret_ref_issues-eq-nil path i (s ∷ ss) = ground (arith, secret_ref_issues-eq-nil path (suc i) ss)

validate_auth-IsAuth : (path : List Text) (a : Auth) → (validate_auth path a ≡ []) ↔ IsAuth a
unfolding validate_auth
validate_auth-IsAuth path a = validate_auth_of a.secret_refs refl
  where
    validate_auth_of :
        (r : Option (List Text)) → a.secret_refs ≡ r → (validate_auth path a ≡ []) ↔ IsAuth a
    validate_auth_of none e = ground arith
    validate_auth_of (some refs) e =
        ground (arith, secret_ref_issues-eq-nil (path ++ codes "secret_refs" ∷ []) 0 refs)

is_message-false : (t : Text) → (is_message t ≡ false) ↔ (t ≡ [])
is_message-false [] = ground arith
is_message-false (c ∷ cs) = ground arith

schedule_issue-eq-nil :
    (ext : Parsers) (path : List Text) (s : Text)
    → (schedule_issue ext path s ≡ []) ↔ IsSchedule ext s
unfolding schedule_issue
schedule_issue-eq-nil ext path s = ground (arith, is_message-false (validate_schedule ext s))

schedule_issues-eq-nil :
    (ext : Parsers) (path : List Text) (i : ℕ) (ss : List Text)
    → (schedule_issues ext path i ss ≡ []) ↔ All (IsSchedule ext) ss
unfolding schedule_issues
schedule_issues-eq-nil ext path i [] = ground arith
schedule_issues-eq-nil ext path i (s ∷ ss) =
    both_empty _ _ (schedule_issue-eq-nil ext _ s) (schedule_issues-eq-nil ext path (suc i) ss)

job_schedule_issues-IsScheduled :
    (ext : Parsers) (path : List Text) (schedule : Option Text) (schedules : Option (List Text))
    → (job_schedule_issues ext path schedule schedules ≡ []) ↔ IsScheduled ext schedule schedules
unfolding job_schedule_issues
job_schedule_issues-IsScheduled ext path none none = ground arith
job_schedule_issues-IsScheduled ext path (some s) none =
    ground (arith, schedule_issue-eq-nil ext (path ++ codes "schedule" ∷ []) s)
job_schedule_issues-IsScheduled ext path none (some ss) =
    ground (arith, schedule_issues-eq-nil ext (path ++ codes "schedules" ∷ []) 0 ss)
job_schedule_issues-IsScheduled ext path (some s) (some ss) = ground arith

validate_job-IsJob :
    (ext : Parsers) (path : List Text) (j : Job) → (validate_job ext path j ≡ []) ↔ IsJob ext j
unfolding validate_job
validate_job-IsJob ext path j = regroup (
    both_empty _ _ (add_unless-eq-nil (match_id j.name) _ _ _) (
      both_empty _ _ (job_schedule_issues-IsScheduled ext path j.schedule j.schedules) (
        both_empty _ _ (validate_request-IsRequest ext _ j.request) (
          both_empty _ _ (Given-empty _ IsPolicy j.policy (validate_policy-IsPolicy _))
            (Given-empty _ IsAuth j.auth (validate_auth-IsAuth _))))))
  where
    regroup : {X A B C D E : Type 0} → X ↔ (A × (B × (C × (D × E)))) → X ↔ (A × B × C × D × E)
    regroup e = (
      (λ x. let h = e.0 x in (h.0, h.1.0, h.1.1.0, h.1.1.1.0, h.1.1.1.1)),
      (λ (a, b, c, d, f). e.1 (a, (b, (c, (d, f))))),
    )

abbrev Fresh : List (Text × ℕ) → List Job → Type 0
Fresh seen js = All (λ j. find_seen j.name seen ≡ none) js

name_issue-eq-nil :
    (path : List Text) (name : Text) (seen : List (Text × ℕ))
    → match_id name ≡ true
    → (name_issue path name seen ≡ []) ↔ (find_seen name seen ≡ none)
unfolding name_issue match_id
name_issue-eq-nil path [] seen h = cc
name_issue-eq-nil path (c ∷ cs) seen h = ground arith

see_new :
    (name : Text) (i : ℕ) (seen : List (Text × ℕ))
    → match_id name ≡ true
    → find_seen name seen ≡ none
    → see name i seen ≡ (name, i) ∷ seen
unfolding see match_id
see_new [] i seen h e = cc
see_new (c ∷ cs) i seen h e = ground arith

Fresh-cons :
    (name : Text) (i : ℕ) (seen : List (Text × ℕ)) (js : List Job)
    → Fresh ((name, i) ∷ seen) js ↔ (All (λ k. name ≢ k.name) js × Fresh seen js)
unfolding find_seen
Fresh-cons name i seen [] = ground arith
Fresh-cons name i seen (j ∷ js) = ground (arith, Fresh-cons name i seen js, equal_iff name j.name)

abbrev Accepted : Parsers → List (Text × ℕ) → List Job → Type 0
Accepted ext seen js = All (IsJob ext) js × (Fresh seen js × Distinct js)

module _ (ext : Parsers) (i : ℕ) (seen : List (Text × ℕ)) (j : Job) (js : List Job) where
  abbrev job_path : List Text
  job_path = codes "jobs" ∷ decimal i ∷ []

  job_issues-parts : (job_issues ext i seen (j ∷ js) ≡ []) ↔ (
      (validate_job ext job_path j ≡ [])
      × ((name_issue job_path j.name seen ≡ [])
          × (job_issues ext (suc i) (see j.name i seen) js ≡ [])))
  unfolding job_issues
  job_issues-parts =
      both_empty _ _ ((λ h. h), (λ h. h)) (both_empty _ _ ((λ h. h), (λ h. h)) ((λ h. h), (λ h. h)))

  module _
      (rest : (job_issues ext (suc i) ((j.name, i) ∷ seen) js ≡ [])
        ↔ Accepted ext ((j.name, i) ∷ seen) js) where
    job_issues_sound : job_issues ext i seen (j ∷ js) ≡ [] → Accepted ext seen (j ∷ js)
    job_issues_sound h =
        let (a, (b, c)) = job_issues-parts.0 h in
        let job = (validate_job-IsJob ext job_path j).0 a in
        let new = (name_issue-eq-nil job_path j.name seen job.0).0 b in
        let (jobs, (fresh, distinct)) = rest.0 (rw (see_new j.name i seen job.0 new) at c) in
        let (others, old) = (Fresh-cons j.name i seen js).0 fresh in
        ((job, jobs), ((new, old), (others, distinct)))

    job_issues_complete : Accepted ext seen (j ∷ js) → job_issues ext i seen (j ∷ js) ≡ []
    job_issues_complete ((job, jobs), ((new, old), (others, distinct))) = job_issues-parts.1 (
      (validate_job-IsJob ext job_path j).1 job,
      (
        (name_issue-eq-nil job_path j.name seen job.0).1 new,
        rw (see_new j.name i seen job.0 new)
            (rest.1 (jobs, ((Fresh-cons j.name i seen js).1 (others, old), distinct))),
      ),
    )

-- The loop finds nothing exactly when the jobs are valid, their names are new and distinct.
job_issues-Accepted :
    (ext : Parsers) (i : ℕ) (seen : List (Text × ℕ)) (js : List Job)
    → (job_issues ext i seen js ≡ []) ↔ Accepted ext seen js
unfolding job_issues
job_issues-Accepted ext i seen [] = ground arith
job_issues-Accepted ext i seen (j ∷ js) =
    let rest = job_issues-Accepted ext (suc i) ((j.name, i) ∷ seen) js in
    (job_issues_sound ext i seen j js rest, job_issues_complete ext i seen j js rest)

Fresh-nil : (js : List Job) → Fresh [] js
unfolding find_seen
Fresh-nil [] = tt
Fresh-nil (j ∷ js) = (refl, Fresh-nil js)

manifest_issues-IsWellFormed :
    (ext : Parsers) (m : Manifest) → (manifest_issues ext m ≡ []) ↔ IsWellFormed ext m
unfolding manifest_issues
manifest_issues-IsWellFormed ext m =
    ground (arith, job_issues-Accepted ext 0 [] m.jobs, Fresh-nil m.jobs)

-- `Validate` returns nil exactly for the manifests of version 1 with a well-formed app id and 1 to
-- 256 jobs of distinct names, each of which has a well-formed name, exactly one of `schedule` and
-- `schedules` (1 to 64 of them) with valid expressions, an http(s) URL, a known method, and, where
-- they are given, a policy and secret references within their documented ranges.
pub validate-IsWellFormed :
    (ext : Parsers) (m : Manifest) → (validate ext m ≡ none) ↔ IsWellFormed ext m
unfolding validate
validate-IsWellFormed ext m = ground (arith, manifest_issues-IsWellFormed ext m)
