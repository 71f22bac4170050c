-- ===== src/Aws/Scheduler.antt =====
-- go/internal/backends/aws/backend.go: the operations of the backend on EventBridge Scheduler. The
-- client's calls are parameters over the state `S` of the service.
pub mod Paging
use cronix.Prelude.{
  ℕ, List, Option, none, ◌∷◌, suc, [], some, Bool, if◌then◌else◌, ltb, ◌++◌, not, length, zero,
  ◌&&◌,
}
use cronix.Prelude.Int.{pos, ℤ}
use cronix.Backends.{listed, list_error}
use cronix.Prelude.Text.{Text, codes, equal}
use cronix.Aws.Description.{Described, parse_description, build_description}
use cronix.Manifest.{NormalizedJob}
use cronix.Aws.{translate_aws_cron}
use cronix.Policy.{schedule_name, schedule_prefix, hash}
use cronix.Auth.{show_int}

-- An answer of the service, or an error.
pub data Answer (A : Type 0) : Type 0 where
  answered : A → Answer A
  service_error : Text → Answer A

-- A page of names, and the token of the next one.
pub record Page : Type 0 where
  pub names : List Text
  pub next : Option Text

pub record Schedule : Type 0 where
  pub description : Text
  pub arn : Text

pub record CreateInput : Type 0 where
  pub name : Text
  pub group : Text
  pub expression : Text
  pub description : Text
  pub timezone : Text
  pub target_arn : Text
  pub role_arn : Text
  pub payload : Text

-- `SchedulerAPI`: the calls with the group, the prefix and the token, or the name
pub record Api (S : Type 0) : Type 0 where
  pub list_schedules : Text → Text → Option Text → S → Answer Page
  pub get_schedule : Text → Text → S → Answer Schedule
  pub create_schedule : CreateInput → S → S × Option Text
  pub delete_schedule : Text → Text → S → S × Option Text

pub record Options : Type 0 where
  pub schedule_group : Text
  pub target_arn : Text
  pub role_arn : Text
  pub secret_refs : List Text

-- An owned schedule, with its ARN.
pub record AwsEntry : Type 0 where
  pub described : Described
  pub arn : Text

pub data Entries : Type 0 where
  entries : List AwsEntry → Entries
  entries_error : Text → Entries
  unfinished : Entries

unfoldable pub or_default : Text → Text → Text
or_default value [] = value
or_default value (c ∷ cs) = c ∷ cs

-- `policy.ScheduleName`, at an index that was read
unfoldable pub name_at : Text → Text → ℤ → Text
name_at app job idx = schedule_prefix ++ (app ++ (b'-' ∷ (job ++ (b'-' ∷ show_int idx))))

module _ {S : Type 0} (api : Api S) (opts : Options) where
  -- The schedules of one page, behind those that were collected.
  unfoldable pub add_page : List Text → List AwsEntry → S → Entries
  unfolding parse_description
  add_page [] out s = entries out
  add_page (name ∷ names) out s = elim (api.get_schedule opts.schedule_group name s) [
    | service_error err ↦
        entries_error (codes "aws: get schedule " ++ (name ++ (codes ": " ++ err)))
    | answered full ↦ elim (parse_description full.description) [
      | none ↦ add_page names out s
      | some d ↦ add_page names (out ++ record { described = d; arn = full.arn } ∷ []) s
    ]
  ]

  -- The loop over the pages, on fuel.
  unfoldable pub list_from : ℕ → Option Text → List AwsEntry → S → Entries
  unfolding add_page
  list_from zero next out s = unfinished
  list_from (suc fuel) next out s =
      elim (api.list_schedules opts.schedule_group schedule_prefix next s) [
        | service_error err ↦ entries_error (codes "aws: list schedules: " ++ err)
        | answered page ↦ elim (add_page page.names out s) [
          | entries_error err ↦ entries_error err
          | unfinished ↦ unfinished
          | entries out' ↦ elim page.next [
            | none ↦ entries out'
            | some [] ↦ entries out'
            | some (c ∷ cs) ↦ list_from fuel (some (c ∷ cs)) out' s
          ]
        ]
      ]

  -- `List`
  unfoldable pub list : ℕ → S → Entries
  unfolding list_from
  list fuel s = list_from fuel none [] s

  unfoldable pub create_from :
      (NormalizedJob → ℕ → Text) → Text → NormalizedJob → ℕ → List Text → S → S × Option Text
  unfolding build_description or_default
  create_from marshal app job i [] s = (s, none)
  create_from marshal app job i (sched ∷ scheds) s = elim (translate_aws_cron sched) [
    | none ↦ (s, some (codes "aws: cannot translate schedule"))
    | some expr ↦
        let name = schedule_name app job.name i in
        let (s', err) =
          api.create_schedule
            (record {
              name = name;
              group = opts.schedule_group;
              expression = expr;
              description = build_description app job.name i (hash job i);
              timezone = or_default (codes "UTC") job.timezone;
              target_arn = opts.target_arn;
              role_arn = opts.role_arn;
              payload = marshal job i;
            })
            s in
        elim err [
          | some text ↦ (s', some (codes "aws: create schedule " ++ (name ++ (codes ": " ++ text))))
          | none ↦ create_from marshal app job (suc i) scheds s'
        ]
  ]

  -- `Create`, where `marshal` is `buildTargetInput`
  unfoldable pub create : (NormalizedJob → ℕ → Text) → Text → NormalizedJob → S → S × Option Text
  unfolding create_from
  create marshal app job s = create_from marshal app job 0 job.schedules s

  unfoldable pub delete_from : Text → Text → List AwsEntry → S → S × Option Text
  unfolding name_at
  delete_from app job [] s = (s, none)
  delete_from app job (e ∷ es) s =
      if not (equal e.described.app app && equal e.described.job job)
      then delete_from app job es s
      else let name = name_at app job e.described.index in
        let (s', err) = api.delete_schedule name opts.schedule_group s in
        elim err [
          | some text ↦ (s', some (codes "aws: delete schedule " ++ (name ++ (codes ": " ++ text))))
          | none ↦ delete_from app job es s'
        ]

  -- `Delete`; `none` where the listing does not end.
  unfoldable pub delete : ℕ → Text → Text → S → Option (S × Option Text)
  unfolding list delete_from
  delete fuel app job s = elim (list fuel s) [
    | unfinished ↦ none
    | entries_error err ↦ some (s, some err)
    | entries all ↦ some (delete_from app job all s)
  ]

  -- `Update`
  unfoldable pub update :
      ℕ → (NormalizedJob → ℕ → Text) → Text → NormalizedJob → S → Option (S × Option Text)
  unfolding delete create
  update fuel marshal app job s = elim (delete fuel app job.name s) [
    | none ↦ none
    | some (s', some err) ↦ some (s', some err)
    | some (s', none) ↦ some (create marshal app job s')
  ]

-- The issues of the schedules in `Validate`, by position.
unfoldable pub schedule_issues : ℕ → List Text → List ℕ
unfolding translate_aws_cron
schedule_issues i [] = []
schedule_issues i (s ∷ ss) = elim (translate_aws_cron s) [
  | none ↦ i ∷ schedule_issues (suc i) ss
  | some expr ↦ schedule_issues (suc i) ss
]

-- `Validate`: those positions, and whether the name is too long
unfoldable pub validate : NormalizedJob → List ℕ × Bool
unfolding schedule_issues schedule_name
validate job =
    (schedule_issues 0 job.schedules, ltb 64 (length (schedule_name (codes "dummyapp") job.name 0)))
