-- ===== src/Kubernetes/Hashes.antt =====
-- go/internal/backends/kubernetes/kubernetes.go: the hash that `List` reports.
use cronix.Prelude.{
  ℕ, some, none, Option, get_elem?, [], ◌≡◌, ◌∷◌, if◌then◌else◌, refl, List, true, ◌++◌, ◌<◌, ◌≢◌,
  false, ◌∙◌, Bool-cases, inl, inr,
}
use cronix.Prelude.Int.{pos}
use cronix.Prelude.Text.{Text, equal, codes, equal_refl, equal_iff}
use cronix.Kubernetes.{
  build_resources, compute_list_hash, spec_hash, CronJob, Options, ConfigMap,
  translate_k8s_schedule, spec_of, find_map, K8sEntry, list_entries, config_map_spec_json,
}
use cronix.Trigger.Spec.{SpecFile}
use cronix.Manifest.{NormalizedJob}
use cronix.Policy.{hash, drift_spec_edited}
use cronix.Aws.Description.{atoi_value-decimal, atoi_value}

find_map-last :
    (name : Text) (others : List ConfigMap) (cm : ConfigMap)
    → equal cm.name name ≡ true
    → find_map name (others ++ cm ∷ []) ≡ some cm
unfolding find_map
find_map-last name [] cm e = rw e refl
find_map-last name (x ∷ others) cm e = rw (find_map-last name others cm e) refl

-- The entry of a CronJob whose ConfigMap comes behind others.
list_entries-one :
    (decode : Text → Option SpecFile) (others : List ConfigMap) (cj : CronJob) (cm : ConfigMap)
    (spec : SpecFile) (idx c : ℕ) (cs s sched : Text)
    → cm.name ≡ cj.name ++ codes "-spec"
    → config_map_spec_json cm.data_of ≡ c ∷ cs
    → decode (c ∷ cs) ≡ some spec
    → get_elem? spec.job.schedules idx ≡ some s
    → translate_k8s_schedule s ≡ some sched
    → atoi_value cj.labels.index ≡ pos idx
    → list_entries decode (others ++ cm ∷ []) (cj ∷ [])
      ≡ record {
        app = cj.labels.app;
        job = cj.labels.job;
        hash = if equal cj.schedule sched then hash spec.job idx else drift_spec_edited;
        index = pos idx;
      }
        ∷ []
unfolding list_entries compute_list_hash spec_hash
list_entries-one decode others cj cm spec idx c cs s sched name json ed es et ei =
    let same : equal cm.name (cj.name ++ codes "-spec") ≡ true = (equal_iff _ _).1 name in
    rw
      (
        find_map-last (cj.name ++ codes "-spec") others cm same,
        list_entries,
        ei,
        compute_list_hash,
        json,
        ed,
        ei,
        spec_hash,
        es,
        et,
      )
      refl

differ : (a b : Text) → a ≢ b → equal a b ≡ false
differ a b ne = elim (Bool-cases (equal a b)) [
  | inl same ↦ absurd (ne ((equal_iff a b).0 same))
  | inr other ↦ other
]

-- What `List` is to report of a schedule.
abbrev pub entry_of : Text → NormalizedJob → ℕ → Text → K8sEntry
entry_of app job idx h = record { app = app; job = job.name; hash = h; index = pos idx }

-- The objects are there, and `List` reports the CronJob with the job's hash, and once its schedule
-- is not `sched` any more with the mark of an edited spec. Its ConfigMap comes behind others.
unfoldable pub IsListed :
    (Text → Option SpecFile)
    → Text
    → NormalizedJob
    → ℕ
    → Text
    → Option (CronJob × ConfigMap)
    → Type 0
IsListed decode app job idx sched none = ⊥
IsListed decode app job idx sched (some (cj, cm)) =
    (others : List ConfigMap)
    → (list_entries decode (others ++ cm ∷ []) (cj ∷ []) ≡ entry_of app job idx (hash job idx) ∷ [])
      × ((live : Text)
          → live ≢ sched
          → list_entries decode (others ++ cm ∷ []) (record cj { schedule = live } ∷ [])
            ≡ entry_of app job idx drift_spec_edited ∷ [])

-- For a schedule of the job that translates, where the JSON of the spec is read back: the objects
-- that `Create` renders are there, and `List` reports of them, whatever ConfigMaps come before
-- theirs, the app, the job, the index and the job's hash for it; once the schedule of the live
-- CronJob is not the translated one, it reports the mark of an edited spec for the hash.
pub list_entries-build_resources :
    (marshal : SpecFile → Option Text) (decode : Text → Option SpecFile) (opts : Options)
    (app : Text) (job : NormalizedJob) (idx c : ℕ) (cs s sched : Text)
    → get_elem? job.schedules idx ≡ some s
    → translate_k8s_schedule s ≡ some sched
    → marshal (spec_of opts app job idx) ≡ some (c ∷ cs)
    → decode (c ∷ cs) ≡ some (spec_of opts app job idx)
    → idx < 9223372036854775808
    → IsListed decode app job idx sched (build_resources marshal opts app job idx s)
unfolding IsListed build_resources
list_entries-build_resources marshal decode opts app job idx c cs s sched es et em ed lt =
    let number = atoi_value-decimal idx lt in
    rw (et, build_resources, em, IsListed)
      (λ others. (
        list_entries-one decode others _ _ (spec_of opts app job idx) idx c cs s sched refl refl ed
              es et number
            ∙ rw (equal_refl sched) refl,
        λ live ne.
            list_entries-one decode others _ _ (spec_of opts app job idx) idx c cs s sched refl refl
              ed es et number
            ∙ rw (differ live sched ne) refl,
      ))
