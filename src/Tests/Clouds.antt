-- ===== src/Tests/Clouds.antt =====
-- The AWS and Vercel backends and the configuration, at concrete inputs.
use Kubernetes.{translate_k8s_schedule}
use Vercel.{name_issue, schedule_issue}
use cronix.Prelude.{
  refl, some, none, [], ◌∷◌, Option, ◌≡◌, ◌↔◌, arith, map, In, ◌≢◌, ◌++◌, inl, ◌⊎◌,
}
use cronix.Config
use cronix.Kubernetes
use cronix.Vercel
use cronix.Aws.Scheduler.{list, Page, answered, Api, Options, add_page}
use cronix.Prelude.Int.{pos}
use cronix.Prelude.Text.{codes, Text, trim_space, fields, equal}
use cronix.Tests.Samples.{sample_job, sample_manifest}
use cronix.Aws.Description.{
  parse_description, build_description, parse_description-build_description,
}
use cronix.Config.{default_config, Config}
use cronix.Manifest.{NormalizedJob}
use cronix.Vercel.{document, vercel, CronEntry}
use cronix.Reconcile.{compute, planned, job_op}
use cronix.Config.Accepted.{validate_iff}
use cronix.Vercel.Plans.{doc_of, compute-creates_all}
use cronix.Aws.Scheduler.Paging.{names_of, list-Pages, more_pages, last_page}
use cronix.Config.Filled.{IsConfig}
use cronix.Vercel.Entries.{update-entries}
use cronix.Kubernetes.Hashes.{IsListed, list_entries-build_resources}
use cronix.Kubernetes.{spec_of, build_resources}

parse_description-build_description_example :
    parse_description (build_description (codes "billing") (codes "report") 2 (codes "0a1b"))
    ≡ some
        (record { app = codes "billing"; job = codes "report"; hash = codes "0a1b"; index = pos 2 })
parse_description-build_description_example =
    parse_description-build_description (codes "billing") (codes "report") (codes "0a1b") 2 refl
      refl refl (omega arith)

-- A service with two pages.
abbrev first_names : Page
first_names = record { names = codes "cronix-a-b-0" ∷ []; next = some (codes "t") }

abbrev second_names : Page
second_names = record { names = codes "cronix-a-c-0" ∷ []; next = none }

abbrev page_at : Option Text → Page
page_at none = first_names
page_at (some t) = second_names

abbrev two_pages : Api Unit
two_pages = record {
  list_schedules = λ group prefix next s. answered (page_at next);
  get_schedule = λ group name s.
      answered
        (record { description = codes "cronix-managed app=a job=b idx=0 hash=1"; arn = name });
  create_schedule = λ input s. (s, none);
  delete_schedule = λ name group s. (s, none);
}

abbrev group_options : Options
group_options = record {
  schedule_group = codes "default";
  target_arn = codes "arn:t";
  role_arn = codes "arn:r";
  secret_refs = [];
}

list-Pages_example :
    list two_pages group_options 2 tt
    ≡ add_page two_pages group_options
        (names_of two_pages group_options (first_names ∷ second_names ∷ []))
        []
        tt
list-Pages_example =
    list-Pages two_pages group_options 2 tt (first_names ∷ second_names ∷ [])
      (more_pages first_names b't' [] (second_names ∷ []) refl refl
        (last_page second_names refl (inl refl)))
      (omega arith)

validate_iff_example :
    ((Config.validate default_config).1 ≡ []) ↔ IsConfig (Config.validate default_config).0
validate_iff_example = validate_iff default_config

abbrev cron_job : NormalizedJob
cron_job = record sample_job { schedules = codes "0 9 * * *" ∷ codes "0 18 * * *" ∷ [] }

abbrev vercel_file : Vercel.File
vercel_file = document (record {
  crons =
      record { path = codes "/api/cleanup"; schedule = codes "0 0 * * *" }
      ∷ record { path = codes "/api/v1/scheduled/report"; schedule = codes "0 9 * * *" }
      ∷ [];
  other = (codes "regions", codes "[]") ∷ [];
})

abbrev prefix : Text
prefix = codes "/api/v1/scheduled/"

compute-creates_all_example :
    compute (λ groups. groups) sample_manifest (vercel none prefix) vercel_file
    ≡ planned (record {
      backend = codes "vercel";
      ops = map (λ job. job_op (codes "billing") job none) (sample_job ∷ []);
    })
compute-creates_all_example =
    compute-creates_all none prefix vercel_file (λ groups. groups) sample_manifest tt
      (λ gs x. ((λ h. h), (λ h. h))) billing
  where
    billing : codes "billing" ≢ []
    billing e = cc e

update-entries_example :
    ((Vercel.update none prefix vercel_file cron_job).1 ≡ none)
    × ((doc_of (Vercel.update none prefix vercel_file cron_job).0).other
        ≡ (codes "regions", codes "[]") ∷ [])
    × ((c : CronEntry)
        → In c (doc_of (Vercel.update none prefix vercel_file cron_job).0).crons ↔ (
            (In c (doc_of vercel_file).crons × (c.path ≢ prefix ++ codes "report"))
            ⊎ ((c.path ≡ prefix ++ codes "report") × In c.schedule cron_job.schedules)))
unfolding name_issue schedule_issue trim_space fields doc_of
update-entries_example = update-entries prefix vercel_file cron_job tt refl (refl, (refl, tt))

abbrev k8s_options : Kubernetes.Options
k8s_options = record { image = codes "awbx/cronix"; namespace = codes "default"; secret_refs = [] }

list_entries-build_resources_example :
    IsListed
      (λ t. some (spec_of k8s_options (codes "billing") sample_job 0))
      (codes "billing")
      sample_job
      0
      (codes "0 * * * *")
      (build_resources
        (λ spec. some (codes "{}"))
        k8s_options
        (codes "billing")
        sample_job
        0
        (codes "@hourly"))
unfolding translate_k8s_schedule trim_space equal
list_entries-build_resources_example =
    list_entries-build_resources (λ spec. some (codes "{}"))
      (λ t. some (spec_of k8s_options (codes "billing") sample_job 0)) k8s_options (codes "billing")
      sample_job 0 b'{' (codes "}") (codes "@hourly") (codes "0 * * * *") refl refl refl refl
      (omega arith)
