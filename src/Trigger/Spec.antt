-- ===== src/Trigger/Spec.antt =====
-- go/internal/trigger/spec.go: the spec file of a job, its path and `LoadSpec`.
use cronix.Prelude.{ℕ, [], List, ◌∷◌, ◌++◌, if◌then◌else◌, ◌≡◌, not, arith}
use cronix.Manifest.{NormalizedJob}
use cronix.Prelude.Text.{Text, codes, equal, equal_iff}

pub record SpecFile : Type 0 where
  pub app : Text
  pub job : NormalizedJob
  pub secret_refs : List Text
  pub schedule_index : ℕ

-- What the file system and the JSON decoder give for a path.
pub data SpecRead : Type 0 where
  unread : SpecRead
  unparsed : SpecRead
  parsed : SpecFile → SpecRead

pub data SpecError : Type 0 where
  load_failed parse_failed app_mismatch job_mismatch : SpecError

pub data Loaded : Type 0 where
  loaded : SpecFile → Loaded
  load_error : SpecError → Loaded

-- `if dir == "" { dir = d }`
abbrev or_dir : Text → Text → Text
or_dir [] d = d
or_dir (c ∷ cs) d = c ∷ cs

-- `<app>.<name>.json`
unfoldable pub spec_name : Text → Text → Text
spec_name app job_name = app ++ (b'.' ∷ (job_name ++ codes ".json"))

check_spec : Text → Text → SpecRead → Loaded
check_spec app job_name unread = load_error load_failed
check_spec app job_name unparsed = load_error parse_failed
check_spec app job_name (parsed spec) =
    if not (equal spec.app app)
    then load_error app_mismatch
    else if not (equal spec.job.name job_name)
    then load_error job_mismatch
    else loaded spec

-- `read_spec` reads and decodes the file of the path that `join_path` makes; `env_dir` is the value
-- of CRONIX_JOB_SPEC_DIR.
unfoldable pub load_spec :
    (Text → SpecRead) → (Text → Text → Text) → Text → Text → Text → Text → Loaded
unfolding check_spec
load_spec read_spec join_path env_dir dir app job_name = check_spec app job_name (
    read_spec
      (join_path (or_dir (or_dir dir env_dir) (codes "/etc/cronix/jobs")) (spec_name app job_name)))

-- A spec that is loaded is the one of the app and the job that were asked for.
pub load_spec-names :
    (read_spec : Text → SpecRead) (join_path : Text → Text → Text) (env_dir dir app job_name : Text)
    (spec : SpecFile)
    → load_spec read_spec join_path env_dir dir app job_name ≡ loaded spec
    → (spec.app ≡ app) × (spec.job.name ≡ job_name)
unfolding load_spec
load_spec-names read_spec join_path env_dir dir app job_name spec e =
    ground (arith, equal_iff spec.app app, equal_iff spec.job.name job_name)
