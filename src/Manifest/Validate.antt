-- ===== src/Manifest/Validate.antt =====
-- go/internal/manifest/manifest.go: `Parse`, `Validate` and the methods of `validator`. The issues
-- that a method adds are the list that it returns, in the order of the calls of `add`.
pub mod WellFormed
use cronix.Prelude.{
  ℕ, suc, ◌+◌, Bool, true, false, ◌&&◌, ◌||◌, not, Option, none, some, List, [], ◌∷◌, ◌++◌, ltb,
  leb, ◌==◌, if◌then◌else◌, length, all,
}
use cronix.Prelude.Int.{ℤ, pos, ltℤ}
use cronix.Prelude.Text.{Text, codes, contains, equal, is_lower, is_upper, is_digit}
use cronix.Prelude.Text.Decimal.{decimal}
use cronix.Manifest.Cron.{validate_schedule}
use cronix.Manifest.{
  Issue, Url, Parsers, Request, Retries, Policy, Auth, Job, Manifest, timeout_min, timeout_max,
  retry_attempts_min, retry_attempts_max, max_jobs, max_schedules_per_job, max_secret_refs,
}

-- `[a-z0-9-]`
abbrev pub is_id_byte : ℕ → Bool
is_id_byte c = is_lower c || is_digit c || c == b'-'

-- `^[a-z][a-z0-9-]{0,62}$`, the form of job names and app ids
unfoldable pub match_id : Text → Bool
match_id [] = false
match_id (c ∷ cs) = is_lower c && all is_id_byte cs && leb (length cs) 62

abbrev is_ref_byte : ℕ → Bool
is_ref_byte c =
    is_lower c
    || is_upper c
    || is_digit c
    || c == b'_'
    || c == b':'
    || c == b'.'
    || c == b'/'
    || c == b'-'

-- `^[a-zA-Z][a-zA-Z0-9_:./-]{0,127}$`
unfoldable pub match_secret_ref : Text → Bool
match_secret_ref [] = false
match_secret_ref (c ∷ cs) = (is_lower c || is_upper c) && all is_ref_byte cs && leb (length cs) 127

abbrev pub http_methods : List Text
http_methods = codes "GET" ∷ codes "POST" ∷ codes "PUT" ∷ codes "PATCH" ∷ codes "DELETE" ∷ []

abbrev pub concurrency_values : List Text
concurrency_values = codes "Allow" ∷ codes "Forbid" ∷ codes "Replace" ∷ []

abbrev pub concurrency_scopes : List Text
concurrency_scopes = codes "host" ∷ codes "global" ∷ []

-- `v.add(path, message, code)` where `bad` holds
unfoldable pub add_if : Bool → List Text → Text → Text → List Issue
add_if true path message code = record { path = path; message = message; code = code } ∷ []
add_if false path message code = []

abbrev add : List Text → Text → Text → List Issue
add path message code = record { path = path; message = message; code = code } ∷ []

abbrev at : List Text → Text → List Text
at path name = path ++ name ∷ []

-- `v` is given and fails the test.
unfoldable pub given_and : {A : Type 0} → (A → Bool) → Option A → Bool
given_and bad none = false
given_and bad (some v) = bad v

-- `e != ""`
abbrev pub is_message : Text → Bool
is_message [] = false
is_message (_ ∷ _) = true

unfoldable pub schedule_issue : Parsers → List Text → Text → List Issue
unfolding add_if
schedule_issue ext path s =
    let e = validate_schedule ext s in add_if (is_message e) path e (codes "custom")

unfoldable pub schedule_issues : Parsers → List Text → ℕ → List Text → List Issue
unfolding schedule_issue
schedule_issues ext path si [] = []
schedule_issues ext path si (s ∷ ss) =
    schedule_issue ext (at path (decimal si)) s ++ schedule_issues ext path (suc si) ss

-- `u, err := url.Parse(...)` and its test
unfoldable pub bad_url : Option Url → Bool
bad_url none = true
bad_url (some u) =
    not (equal u.scheme (codes "http")) && not (equal u.scheme (codes "https")) || equal u.host []

url_issues : Parsers → List Text → Text → List Issue
unfolding add_if bad_url
url_issues ext path [] = add path (codes "url is required") (codes "invalid_value")
url_issues ext path (c ∷ cs) =
    add_if (bad_url (ext.parse_url (c ∷ cs))) path (codes "url must be http(s)")
      (codes "invalid_format")

unfoldable pub validate_request : Parsers → List Text → Request → List Issue
unfolding url_issues add_if given_and
validate_request ext path r =
    url_issues ext (at path (codes "url")) r.url
    ++ add_if (given_and (λ m. not (contains http_methods m)) r.method) (at path (codes "method"))
        (codes "method must be one of GET POST PUT PATCH DELETE") (codes "invalid_value")

-- `*p < lo || *p > hi`
abbrev outside : ℤ → ℤ → ℤ → Bool
outside lo hi v = ltℤ v lo || ltℤ hi v

-- both are given, and the minimum is above the maximum
unfoldable pub min_above_max : Option ℤ → Option ℤ → Bool
min_above_max (some lo) (some hi) = ltℤ hi lo
min_above_max _ _ = false

unfoldable pub validate_retries : List Text → Retries → List Issue
unfolding add_if given_and min_above_max
validate_retries path r =
    add_if (given_and (outside retry_attempts_min retry_attempts_max) r.max_attempts)
      (at path (codes "max_attempts")) (codes "max_attempts must be between 1 and 10")
      (codes "out_of_range")
    ++ (add_if (given_and (λ v. ltℤ v (pos 0)) r.min_seconds) (at path (codes "min_seconds"))
          (codes "min_seconds must be >= 0") (codes "out_of_range")
        ++ (add_if (given_and (λ v. ltℤ v (pos 1)) r.max_seconds) (at path (codes "max_seconds"))
              (codes "max_seconds must be >= 1") (codes "out_of_range")
            ++ add_if (min_above_max r.min_seconds r.max_seconds) path
                (codes "retries.min_seconds must be <= retries.max_seconds") (codes "custom")))

-- `if x != nil { validate(*x) }`
unfoldable pub issues_of_given : {A : Type 0} → (A → List Issue) → Option A → List Issue
issues_of_given validate none = []
issues_of_given validate (some v) = validate v

unfoldable pub validate_policy : List Text → Policy → List Issue
unfolding add_if given_and issues_of_given
validate_policy path p =
    add_if (given_and (λ c. not (contains concurrency_values c)) p.concurrency)
      (at path (codes "concurrency")) (codes "concurrency must be Allow|Forbid|Replace")
      (codes "invalid_value")
    ++ (add_if (given_and (λ c. not (contains concurrency_scopes c)) p.concurrency_scope)
          (at path (codes "concurrency_scope")) (codes "concurrency_scope must be host|global")
          (codes "invalid_value")
        ++ (add_if (given_and (outside timeout_min timeout_max) p.timeout_seconds)
              (at path (codes "timeout_seconds"))
              (codes "timeout_seconds must be between 1 and 600") (codes "out_of_range")
            ++ issues_of_given (validate_retries (at path (codes "retries"))) p.retries))

unfoldable pub secret_ref_issues : List Text → ℕ → List Text → List Issue
unfolding add_if
secret_ref_issues path i [] = []
secret_ref_issues path i (s ∷ ss) =
    add_if (not (match_secret_ref s)) (at path (decimal i)) (codes "invalid secret ref format")
      (codes "invalid_format")
    ++ secret_ref_issues path (suc i) ss

secret_refs_issues : List Text → List Text → List Issue
unfolding add_if secret_ref_issues
secret_refs_issues path refs =
    add_if (length refs == 0) path (codes "must contain at least one secret_ref")
      (codes "too_small")
    ++ (add_if (ltb max_secret_refs (length refs)) path (codes "must contain at most 8 secret_refs")
          (codes "too_big")
        ++ secret_ref_issues path 0 refs)

unfoldable pub validate_auth : List Text → Auth → List Issue
unfolding issues_of_given secret_refs_issues
validate_auth path a =
    issues_of_given (secret_refs_issues (at path (codes "secret_refs"))) a.secret_refs

abbrev pub is_given : {A : Type 0} → Option A → Bool
is_given none = false
is_given (some _) = true

-- `hasSchedule == hasSchedules`
abbrev same : Bool → Bool → Bool
same true b = b
same false b = not b

schedule_list_issues : Parsers → List Text → List Text → List Issue
unfolding add_if schedule_issues
schedule_list_issues ext path ss =
    (if length ss == 0
      then add path (codes "must contain at least one schedule") (codes "too_small")
      else add_if (ltb max_schedules_per_job (length ss)) path
          (codes "must contain at most 64 schedules") (codes "too_big"))
    ++ schedule_issues ext path 0 ss

-- The checks of `schedule` and `schedules`, the first part of `validateJob` but for the name.
unfoldable pub job_schedule_issues :
    Parsers → List Text → Option Text → Option (List Text) → List Issue
unfolding add_if issues_of_given schedule_list_issues
job_schedule_issues ext path schedule schedules =
    add_if (same (is_given schedule) (is_given schedules)) path
      (codes "exactly one of `schedule` or `schedules` must be set") (codes "custom")
    ++ (issues_of_given (schedule_issue ext (at path (codes "schedule"))) schedule
        ++ issues_of_given (schedule_list_issues ext (at path (codes "schedules"))) schedules)

unfoldable pub validate_job : Parsers → List Text → Job → List Issue
unfolding add_if issues_of_given
validate_job ext path j =
    add_if (not (match_id j.name)) (at path (codes "name"))
      (codes "job name must match ^[a-z][a-z0-9-]{0,62}$") (codes "invalid_format")
    ++ (job_schedule_issues ext path j.schedule j.schedules
        ++ (validate_request ext (at path (codes "request")) j.request
            ++ (issues_of_given (validate_policy (at path (codes "policy"))) j.policy
                ++ issues_of_given (validate_auth (at path (codes "auth"))) j.auth)))

-- `seen[name]`
unfoldable pub find_seen : Text → List (Text × ℕ) → Option ℕ
find_seen name [] = none
find_seen name ((n, i) ∷ seen) = if equal n name then some i else find_seen name seen

duplicate_issue : List Text → Text → Option ℕ → List Issue
duplicate_issue path name none = []
duplicate_issue path name (some prev) =
    add (at path (codes "name"))
      (codes "duplicate job name: "
        ++ (name ++ (codes " (also at jobs/" ++ (decimal prev ++ codes ")"))))
      (codes "custom")

-- The issue of a repeated name; the empty name is neither looked up nor kept.
unfoldable pub name_issue : List Text → Text → List (Text × ℕ) → List Issue
unfolding duplicate_issue
name_issue path [] seen = []
name_issue path (c ∷ cs) seen = duplicate_issue path (c ∷ cs) (find_seen (c ∷ cs) seen)

unfoldable pub see : Text → ℕ → List (Text × ℕ) → List (Text × ℕ)
see [] i seen = seen
see (c ∷ cs) i seen = elim (find_seen (c ∷ cs) seen) [ some _ ↦ seen | none ↦ (c ∷ cs, i) ∷ seen ]

unfoldable pub job_issues : Parsers → ℕ → List (Text × ℕ) → List Job → List Issue
unfolding name_issue see
job_issues ext i seen [] = []
job_issues ext i seen (j ∷ js) =
    let path = codes "jobs" ∷ decimal i ∷ [] in
    validate_job ext path j
    ++ (name_issue path j.name seen ++ job_issues ext (suc i) (see j.name i seen) js)

abbrev is_one : ℤ → Bool
is_one (pos n) = n == 1
is_one _ = false

unfoldable pub manifest_issues : Parsers → Manifest → List Issue
unfolding add_if
manifest_issues ext m =
    add_if (not (is_one m.version)) (codes "version" ∷ []) (codes "version must be 1")
      (codes "invalid_value")
    ++ (add_if (not (match_id m.app)) (codes "app" ∷ [])
          (codes "app id must match ^[a-z][a-z0-9-]{0,62}$") (codes "invalid_format")
        ++ (add_if (length m.jobs == 0) (codes "jobs" ∷ []) (codes "must contain at least one job")
              (codes "too_small")
            ++ (add_if (ltb max_jobs (length m.jobs)) (codes "jobs" ∷ [])
                  (codes "must contain at most 256 jobs") (codes "too_big")
                ++ job_issues ext 0 [] m.jobs)))

-- `nil`, or the `*Error` with its issues
unfoldable pub validate : Parsers → Manifest → Option (List Issue)
validate ext m = elim (manifest_issues ext m) [ [] ↦ none | x ∷ xs ↦ some (x ∷ xs) ]

-- The JSON decoder with unknown fields disallowed: a manifest, or the text of its error.
pub data Decoded : Type 0 where
  decoded : Manifest → Decoded
  decode_error : Text → Decoded

-- `Parse`: the manifest, if it was decoded, and the error.
unfoldable pub parse : Parsers → (Text → Decoded) → Text → Option Manifest × Option (List Issue)
parse ext decode raw = elim (decode raw) [
  | decode_error err ↦ (none, some (add [] err (codes "decode")))
  | decoded m ↦ (some m, validate ext m)
]
