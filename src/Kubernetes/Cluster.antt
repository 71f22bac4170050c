-- ===== src/Kubernetes/Cluster.antt =====
-- go/internal/backends/kubernetes/kubernetes.go: `List`, `Create`, `Update`, `Delete` and `Validate`.
use cronix.Prelude.{ℕ, some, none, List, Option, ◌∷◌, Bool, ◌++◌, suc, ltb, length, []}
use cronix.Aws.Scheduler.{Answer, answered, service_error}
use cronix.Prelude.Text.{Text, codes}
use cronix.Kubernetes.{
  Options, list_entries, build_resources, translate_k8s_schedule, CronJob, K8sEntry, name_issue,
  ConfigMap,
}
use cronix.Trigger.Spec.{SpecFile}
use cronix.Manifest.{NormalizedJob}

-- The label selectors: all objects of cronix, or those of one job.
pub data Selector : Type 0 where
  managed : Selector
  of_job : Text → Text → Selector

pub data Created : Type 0 where
  created already_exists : Created
  create_failed : Text → Created

pub data Deleted : Type 0 where
  deleted not_found : Deleted
  delete_failed : Text → Deleted

pub record Api (S : Type 0) : Type 0 where
  pub list_cron_jobs : Selector → S → Answer (List CronJob)
  pub list_config_maps : Selector → S → Answer (List ConfigMap)
  pub create_config_map : ConfigMap → S → S × Created
  pub create_cron_job : CronJob → S → S × Created
  pub delete_cron_job : Text → S → S × Deleted
  pub delete_config_map : Text → S → S × Deleted

pub data Listed : Type 0 where
  entries : List K8sEntry → Listed
  list_failed : Text → Listed

-- An object that exists already is no error.
abbrev pub create_error : Text → Created → Option Text
create_error what created = none
create_error what already_exists = none
create_error what (create_failed err) = some (what ++ (codes ": " ++ err))

-- An object that is gone already is no error.
abbrev pub delete_error : Text → Deleted → Option Text
delete_error what deleted = none
delete_error what not_found = none
delete_error what (delete_failed err) = some (what ++ (codes ": " ++ err))

module _ {S : Type 0} (api : Api S) where
  -- `List`
  unfoldable pub list : (Text → Option SpecFile) → S → Listed
  unfolding list_entries
  list decode s = elim (api.list_cron_jobs managed s) [
    | service_error err ↦ list_failed (codes "kubernetes: list cronjobs: " ++ err)
    | answered cjs ↦ elim (api.list_config_maps managed s) [
      | service_error err ↦ list_failed (codes "kubernetes: list configmaps: " ++ err)
      | answered cms ↦ entries (list_entries decode cms cjs)
    ]
  ]

  -- The loop of `Create`, from schedule `i`.
  unfoldable pub create_from :
      (SpecFile → Option Text)
      → Options
      → Text
      → NormalizedJob
      → ℕ
      → List Text
      → S
      → S × Option Text
  unfolding build_resources
  create_from marshal opts app job i [] s = (s, none)
  create_from marshal opts app job i (sched ∷ scheds) s =
      elim (build_resources marshal opts app job i sched) [
        | none ↦ (s, some (codes "kubernetes: schedule not supported"))
        | some (cj, cm) ↦
            let (s1, made1) = api.create_config_map cm s in
            elim (create_error (codes "kubernetes: create configmap " ++ cm.name) made1) [
              | some err ↦ (s1, some err)
              | none ↦
                  let (s2, made2) = api.create_cron_job cj s1 in
                  elim (create_error (codes "kubernetes: create cronjob " ++ cj.name) made2) [
                    | some err ↦ (s2, some err)
                    | none ↦ create_from marshal opts app job (suc i) scheds s2
                  ]
            ]
      ]

  abbrev with_names : Text → Text → S → (S → S × Option Text) → S × Option Text
  with_names app job s body = elim (name_issue app) [
    | some err ↦ (s, some (codes "kubernetes: app id: " ++ err))
    | none ↦ elim (name_issue job) [
      | some err ↦ (s, some (codes "kubernetes: job name: " ++ err))
      | none ↦ body s
    ]
  ]

  -- `Create`
  unfoldable pub create :
      (SpecFile → Option Text) → Options → Text → NormalizedJob → S → S × Option Text
  unfolding create_from name_issue
  create marshal opts app job s =
      with_names app job.name s (λ s0. create_from marshal opts app job 0 job.schedules s0)

  unfoldable pub delete_cron_jobs : List CronJob → S → S × Option Text
  delete_cron_jobs [] s = (s, none)
  delete_cron_jobs (cj ∷ cjs) s =
      let (s', gone) = api.delete_cron_job cj.name s in
      elim (delete_error (codes "kubernetes: delete cronjob " ++ cj.name) gone) [
        | some err ↦ (s', some err)
        | none ↦ delete_cron_jobs cjs s'
      ]

  unfoldable pub delete_config_maps : List ConfigMap → S → S × Option Text
  delete_config_maps [] s = (s, none)
  delete_config_maps (cm ∷ cms) s =
      let (s', gone) = api.delete_config_map cm.name s in
      elim (delete_error (codes "kubernetes: delete configmap " ++ cm.name) gone) [
        | some err ↦ (s', some err)
        | none ↦ delete_config_maps cms s'
      ]

  -- The second half of `Delete`, behind the CronJobs.
  unfoldable pub delete_maps_of : Text → Text → S × Option Text → S × Option Text
  unfolding delete_config_maps
  delete_maps_of app job (s, some err) = (s, some err)
  delete_maps_of app job (s, none) = elim (api.list_config_maps (of_job app job) s) [
    | service_error err ↦ (s, some (codes "kubernetes: list configmaps: " ++ err))
    | answered cms ↦ delete_config_maps cms s
  ]

  -- `Delete`
  unfoldable pub delete : Text → Text → S → S × Option Text
  unfolding delete_cron_jobs delete_maps_of name_issue
  delete app job s = with_names app job s (λ s0. elim (api.list_cron_jobs (of_job app job) s0) [
    | service_error err ↦ (s0, some (codes "kubernetes: list cronjobs: " ++ err))
    | answered cjs ↦ delete_maps_of app job (delete_cron_jobs cjs s0)
  ])

  -- `Update`
  unfoldable pub update :
      (SpecFile → Option Text) → Options → Text → NormalizedJob → S → S × Option Text
  unfolding delete create
  update marshal opts app job s =
      let (s', err) = delete app job.name s in
      elim err [ some e ↦ (s', some e) | none ↦ create marshal opts app job s' ]

-- The issues of the schedules in `Validate`, by position.
unfoldable pub schedule_issues : ℕ → List Text → List ℕ
unfolding translate_k8s_schedule
schedule_issues i [] = []
schedule_issues i (s ∷ ss) = elim (translate_k8s_schedule s) [
  | none ↦ i ∷ schedule_issues (suc i) ss
  | some sched ↦ schedule_issues (suc i) ss
]

-- `Validate`: those positions, and whether the name is too long
unfoldable pub validate : NormalizedJob → List ℕ × Bool
unfolding schedule_issues
validate job = (schedule_issues 0 job.schedules, ltb 50 (length job.name))
