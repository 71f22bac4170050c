-- ===== src/Kubernetes.antt =====
-- go/internal/backends/kubernetes/kubernetes.go: the objects that the backend renders, and its
-- operations. The API server's calls are parameters over the state `S` of the cluster, and so is
-- the JSON of a spec. A label that an object lacks is the empty text, as Go reads it.
pub mod Hashes
pub mod Cluster
use cronix.Prelude.{
  ℕ, none, some, List, Bool, Option, ◌∷◌, get_elem?, false, if◌then◌else◌, [], ◌==◌, not, ltb, ◌++◌,
  length, all, ◌||◌,
}
use cronix.Prelude.Int.{ℤ, pos, negsuc}
use cronix.Prelude.Text.{Text, codes, trim_space, equal, fields, is_lower, is_digit}
use cronix.Trigger.Spec.{SpecFile}
use cronix.Manifest.{NormalizedJob}
use cronix.Policy.{hash, schedule_name, drift_spec_edited}
use cronix.Aws.Description.{atoi_value}
use cronix.Prelude.Text.Decimal.{decimal}

pub record Labels : Type 0 where
  pub managed : Text
  pub app : Text
  pub job : Text
  pub hash : Text
  pub index : Text

-- The data is in the order in which Go ranges over it.
pub record ConfigMap : Type 0 where
  pub name : Text
  pub namespace : Text
  pub labels : Labels
  pub data_of : List (Text × Text)

-- The fields of the CronJob and of its pod template; the limits and names that never vary are left
-- out.
pub record CronJob : Type 0 where
  pub name : Text
  pub namespace : Text
  pub labels : Labels
  pub schedule : Text
  pub timezone : Text
  pub concurrency_policy : Text
  pub image : Text
  pub args : List Text
  pub spec_name : Text

abbrev at_sign : Text → Bool
at_sign [] = false
at_sign (c ∷ cs) = c == b'@'

-- `translateK8sSchedule`
unfoldable pub translate_k8s_schedule : Text → Option Text
translate_k8s_schedule s =
    let t = trim_space s in
    if not (at_sign t)
    then (if length (fields t) == 5 then some t else none)
    else if equal t (codes "@hourly")
    then some (codes "0 * * * *")
    else if equal t (codes "@daily") || equal t (codes "@midnight")
    then some (codes "0 0 * * *")
    else if equal t (codes "@weekly")
    then some (codes "0 0 * * 0")
    else if equal t (codes "@monthly")
    then some (codes "0 0 1 * *")
    else if equal t (codes "@yearly") || equal t (codes "@annually")
    then some (codes "0 0 1 1 *")
    else none

unfoldable pub name_issue : Text → Option Text
name_issue [] = some (codes "name is empty")
name_issue (c ∷ cs) =
    if ltb 63 (length (c ∷ cs))
    then some (codes "name is too long (max 63)")
    else if all (λ r. is_lower r || is_digit r || r == b'-') (c ∷ cs)
    then none
    else some (codes "name has invalid char")

pub record Options : Type 0 where
  pub image : Text
  pub namespace : Text
  pub secret_refs : List Text

abbrev pub or_utc : Text → Text
or_utc [] = codes "UTC"
or_utc (c ∷ cs) = c ∷ cs

abbrev pub spec_of : Options → Text → NormalizedJob → ℕ → SpecFile
spec_of opts app job idx = record {
  app = app;
  job = job;
  secret_refs = opts.secret_refs;
  schedule_index = idx;
}

abbrev pub labels_of : Text → NormalizedJob → ℕ → Labels
labels_of app job idx = record {
  managed = codes "true";
  app = app;
  job = job.name;
  hash = hash job idx;
  index = decimal idx;
}

-- `buildResources`, where `marshal` is `json.MarshalIndent`
unfoldable pub build_resources :
    (SpecFile → Option Text)
    → Options
    → Text
    → NormalizedJob
    → ℕ
    → Text
    → Option (CronJob × ConfigMap)
unfolding translate_k8s_schedule
build_resources marshal opts app job idx schedule = elim (translate_k8s_schedule schedule) [
  | none ↦ none
  | some sched ↦ elim (marshal (spec_of opts app job idx)) [
    | none ↦ none
    | some spec_json ↦
        let name = schedule_name app job.name idx in
        some (
          record {
            name = name;
            namespace = opts.namespace;
            labels = labels_of app job idx;
            schedule = sched;
            timezone = or_utc job.timezone;
            concurrency_policy = codes "Forbid";
            image = opts.image;
            args = codes "trigger" ∷ (app ++ (b'.' ∷ job.name)) ∷ [];
            spec_name = name ++ codes "-spec";
          },
          record {
            name = name ++ codes "-spec";
            namespace = opts.namespace;
            labels = labels_of app job idx;
            data_of = (app ++ (b'.' ∷ (job.name ++ codes ".json")), spec_json) ∷ [];
          },
        )
  ]
]

-- `configMapSpecJSON`
abbrev pub config_map_spec_json : List (Text × Text) → Text
config_map_spec_json [] = []
config_map_spec_json (d ∷ ds) = d.1

-- The hash of a spec at an index in its range.
unfoldable pub spec_hash : CronJob → NormalizedJob → ℤ → Text
unfolding translate_k8s_schedule
spec_hash cj job (negsuc n) = cj.labels.hash
spec_hash cj job (pos idx) = elim (get_elem? job.schedules idx) [
  | none ↦ cj.labels.hash
  | some s ↦ elim (translate_k8s_schedule s) [
    | none ↦ cj.labels.hash
    | some want ↦ if equal cj.schedule want then hash job idx else drift_spec_edited
  ]
]

-- `computeListHash`, where `decode` is `json.Unmarshal`
unfoldable pub compute_list_hash : (Text → Option SpecFile) → CronJob → Option ConfigMap → ℤ → Text
unfolding spec_hash
compute_list_hash decode cj none idx = cj.labels.hash
compute_list_hash decode cj (some cm) idx = elim (config_map_spec_json cm.data_of) [
  | [] ↦ cj.labels.hash
  | c ∷ cs ↦ elim (decode (c ∷ cs)) [
    | none ↦ cj.labels.hash
    | some spec ↦ spec_hash cj spec.job idx
  ]
]

pub record K8sEntry : Type 0 where
  pub app : Text
  pub job : Text
  pub hash : Text
  pub index : ℤ

-- `cmByName[name]`: a later one of the same name replaces an earlier one.
unfoldable pub find_map : Text → List ConfigMap → Option ConfigMap
find_map name [] = none
find_map name (cm ∷ cms) = elim (find_map name cms) [
  | some later ↦ some later
  | none ↦ if equal cm.name name then some cm else none
]

-- The loop of `List` over the CronJobs.
unfoldable pub list_entries :
    (Text → Option SpecFile) → List ConfigMap → List CronJob → List K8sEntry
unfolding compute_list_hash find_map
list_entries decode cms [] = []
list_entries decode cms (cj ∷ cjs) =
    let idx = atoi_value cj.labels.index in
    record {
      app = cj.labels.app;
      job = cj.labels.job;
      hash = compute_list_hash decode cj (find_map (cj.name ++ codes "-spec") cms) idx;
      index = idx;
    }
    ∷ list_entries decode cms cjs
