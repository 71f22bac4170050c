-- ===== src/Vercel.antt =====
-- go/internal/backends/vercel/vercel.go: the backend that keeps its schedules in vercel.json. The
-- file is held as what `read` makes of it; the bytes of the other keys are kept as they are, and the
-- encoding as JSON is left to encoding/json. An error's text leaves out the path.
pub mod Plans
pub mod Entries
use cronix.Prelude.{
  ℕ, List, [], Bool, Option, if◌then◌else◌, ◌∷◌, false, some, none, not, last, ◌++◌, all, ◌==◌,
  length, suc, ◌||◌,
}
use cronix.Backends.{listed, list_error, ManagedEntry, Listing, Backend}
use cronix.Prelude.Text.{
  Text, codes, cut_prefix, trim_space, equal, less, is_lower, fields, is_digit,
}
use cronix.Manifest.{NormalizedJob}

pub record CronEntry : Type 0 where
  pub path : Text
  pub schedule : Text

-- `vercelJSON`
pub record Doc : Type 0 where
  pub crons : List CronEntry
  pub other : List (Text × Text)

-- vercel.json: absent or empty, not readable, or a document.
pub data File : Type 0 where
  absent : File
  unreadable : Text → File
  document : Doc → File

-- `New`: the prefix of the paths, with a slash at its end
unfoldable pub trigger_prefix : Text → Text
trigger_prefix [] = codes "/api/v1/scheduled/"
trigger_prefix (c ∷ cs) = if last c cs == b'/' then c ∷ cs else (c ∷ cs) ++ (b'/' ∷ [])

abbrev pub no_doc : Doc
no_doc = record { crons = []; other = [] }

-- `read`, followed by what the caller does with the document
unfoldable pub with_doc : {A : Type 0} → File → (Text → A) → (Doc → A) → A
with_doc absent failed next = next no_doc
with_doc (unreadable err) failed next = failed (codes "vercel: read: " ++ err)
with_doc (document doc) failed next = next doc

-- The order of `MarshalJSON`: by path, then by schedule
unfoldable pub cron_less : CronEntry → CronEntry → Bool
cron_less a b = if not (equal a.path b.path) then less a.path b.path else less a.schedule b.schedule

-- `sort.SliceStable`, as an insertion sort
unfoldable pub insert_cron : CronEntry → List CronEntry → List CronEntry
unfolding cron_less
insert_cron x [] = x ∷ []
insert_cron x (y ∷ ys) =
    let rest = insert_cron x ys in if cron_less y x then y ∷ rest else x ∷ y ∷ ys

unfoldable pub sort_crons : List CronEntry → List CronEntry
unfolding insert_cron
sort_crons [] = []
sort_crons (x ∷ xs) = insert_cron x (sort_crons xs)

unfoldable pub contains_any : Text → Text → Bool
contains_any set [] = false
contains_any set (c ∷ cs) = not (all (λ s. not (s == c)) set) || contains_any set cs

-- `jobNameFromPath`
unfoldable pub job_name_from_path : Text → Text → Option Text
unfolding contains_any
job_name_from_path prefix path = elim (cut_prefix path prefix) [
  | none ↦ none
  | some [] ↦ none
  | some (c ∷ cs) ↦ if contains_any (codes "/?#") (c ∷ cs) then none else some (c ∷ cs)
]

-- `hashEntry`
abbrev pub hash_entry : Text → Text → Text
hash_entry path schedule = codes "vercel:" ++ (path ++ (b':' ∷ schedule))

-- `indexByJob[job]`: how many entries of the job came before
unfoldable pub count_job : Text → List Text → ℕ
count_job job [] = 0
count_job job (j ∷ js) = let rest = count_job job js in if equal j job then suc rest else rest

unfoldable pub list_crons : Text → List Text → List CronEntry → List ManagedEntry
unfolding job_name_from_path count_job
list_crons prefix seen [] = []
list_crons prefix seen (c ∷ cs) = elim (job_name_from_path prefix c.path) [
  | none ↦ list_crons prefix seen cs
  | some job ↦
      record {
        app = [];
        job = job;
        hash = hash_entry c.path c.schedule;
        index = count_job job seen;
        raw = c.path ++ (b' ' ∷ c.schedule);
      }
      ∷ list_crons prefix (job ∷ seen) cs
]

-- `List`
unfoldable pub list : Text → File → Listing
unfolding list_crons with_doc
list prefix file = with_doc file list_error (λ doc. listed (list_crons prefix [] doc.crons))

unfoldable pub name_issue : Text → Option Text
name_issue [] = some (codes "vercel: job name: name is empty")
name_issue (c ∷ cs) =
    if all (λ r. is_lower r || is_digit r || r == b'-') (c ∷ cs)
    then none
    else some (codes "vercel: job name: name has invalid char")

abbrev has_at : Text → Bool
has_at [] = false
has_at (c ∷ cs) = c == b'@'

-- `validateSchedule`
unfoldable pub schedule_issue : Text → Option Text
schedule_issue s =
    let t = trim_space s in
    if has_at t
    then some (codes "vercel: Vercel Cron requires 5-field POSIX cron")
    else if length (fields t) == 5
    then none
    else some (codes "vercel: schedule is not 5-field cron")

-- The loop of `Create`: the first schedule that is refused ends it.
unfoldable pub add_crons : Text → List Text → List CronEntry → (List CronEntry) × Option Text
unfolding schedule_issue
add_crons path [] crons = (crons, none)
add_crons path (s ∷ ss) crons = elim (schedule_issue s) [
  | some err ↦ (crons, some err)
  | none ↦ add_crons path ss (crons ++ record { path = path; schedule = s } ∷ [])
]

module _ (write_fault : Option Text) where
  -- `write`
  unfoldable pub write : Doc → File → File × Option Text
  unfolding sort_crons
  write doc file = elim write_fault [
    | some err ↦ (file, some (codes "vercel: write: " ++ err))
    | none ↦ (document (record doc { crons = sort_crons doc.crons }), none)
  ]

  -- `Create`
  unfoldable pub create : Text → File → NormalizedJob → File × Option Text
  unfolding name_issue add_crons write with_doc
  create prefix file job = elim (name_issue job.name) [
    | some err ↦ (file, some err)
    | none ↦
        with_doc file (λ err. (file, some err))
          (λ doc.
            let (crons, refused) = add_crons (prefix ++ job.name) job.schedules doc.crons in
            elim refused [
              | some err ↦ (file, some err)
              | none ↦ write (record doc { crons = crons }) file
            ])
  ]

-- The entries that `Delete` keeps.
unfoldable pub without_path : Text → List CronEntry → List CronEntry
without_path path [] = []
without_path path (c ∷ cs) =
    let rest = without_path path cs in if equal c.path path then rest else c ∷ rest

module _ (write_fault : Option Text) where
  -- `Delete`
  unfoldable pub delete : Text → File → Text → File × Option Text
  unfolding name_issue without_path write with_doc
  delete prefix file job = elim (name_issue job) [
    | some err ↦ (file, some err)
    | none ↦
        with_doc file (λ err. (file, some err))
          (λ doc.
            write write_fault (record doc { crons = without_path (prefix ++ job) doc.crons }) file)
  ]

  -- `Update`
  unfoldable pub update : Text → File → NormalizedJob → File × Option Text
  unfolding delete create
  update prefix file job =
      let (file', err) = delete prefix file job.name in
      elim err [ some e ↦ (file', some e) | none ↦ create write_fault prefix file' job ]

  -- The backend, whose methods do not look at the app.
  abbrev pub vercel : Text → Backend File
  vercel prefix = record {
    name = codes "vercel";
    list = list prefix;
    create = λ file app job. create write_fault prefix file job;
    update = λ file app job. update prefix file job;
    delete = λ file app job. delete prefix file job;
  }

-- `Validate`: the positions of the schedules that are refused, and whether the timezone is
unfoldable pub schedule_issues : ℕ → List Text → List ℕ
unfolding schedule_issue
schedule_issues i [] = []
schedule_issues i (s ∷ ss) = elim (schedule_issue s) [
  | some err ↦ i ∷ schedule_issues (suc i) ss
  | none ↦ schedule_issues (suc i) ss
]

unfoldable pub validate : NormalizedJob → List ℕ × Bool
unfolding schedule_issues
validate job = (
  schedule_issues 0 job.schedules,
  not (equal job.timezone [] || equal job.timezone (codes "UTC")),
)
