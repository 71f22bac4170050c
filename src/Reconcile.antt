-- ===== src/Reconcile.antt =====
-- go/internal/reconcile/reconcile.go: `Compute`, `Apply`, `IsNoop` and their helpers.
pub mod Grouping
pub mod Safety
pub mod Effect
pub mod Converge
pub mod Noop
use cronix.Prelude.{
  ℕ, zero, suc, ◌+◌, Bool, true, false, ◌&&◌, not, Option, none, some, List, [], ◌∷◌, ◌++◌,
  if◌then◌else◌, length, map,
}
use cronix.Prelude.Text.{Text, codes, equal}
use cronix.Policy.{hash}
use cronix.Manifest.{
  NormalizedJob, NormalizedManifest, NormalizedRequest, NormalizedPolicy, NormalizedRetries,
  NormalizedAuth,
}
use cronix.Prelude.Int.{pos}
use cronix.Backends.{ManagedEntry, Listing, listed, list_error, Backend}

pub data Action : Type 0 where
  create update delete skip : Action

pub record Op : Type 0 where
  pub action : Action
  pub app : Text
  pub job_name : Text
  pub job : NormalizedJob
  pub old_hash : Text
  pub new_hash : Text
  pub indices : List ℕ

pub record Plan : Type 0 where
  pub backend : Text
  pub ops : List Op

-- `type appJob`, the key of the maps
pub record AppJob : Type 0 where
  pub app : Text
  pub job : Text

abbrev pub same_key : AppJob → AppJob → Bool
same_key a b = equal a.app b.app && equal a.job b.job

-- `type currentJob`: hashes by index, and the indices in the order of the listing
pub record CurrentJob : Type 0 where
  pub hashes : List Text
  pub indices : List ℕ

abbrev pub no_current : CurrentJob
no_current = record { hashes = []; indices = [] }

-- `for len(hashes) < n { hashes = append(hashes, "") }`
unfoldable pub pad_to : ℕ → List Text → List Text
pad_to zero hs = hs
pad_to (suc n) [] = [] ∷ pad_to n []
pad_to (suc n) (h ∷ hs) = h ∷ pad_to n hs

unfoldable pub set_at : List Text → ℕ → Text → List Text
set_at [] i v = []
set_at (x ∷ xs) zero v = v ∷ xs
set_at (x ∷ xs) (suc i) v = x ∷ set_at xs i v

-- The body of the loop that groups the listing, at the group of the entry.
unfoldable pub add_mark : CurrentJob → Text → ℕ → CurrentJob
unfolding pad_to set_at
add_mark cj hash index = record {
  hashes = set_at (pad_to (suc index) cj.hashes) index hash;
  indices = cj.indices ++ index ∷ [];
}

abbrev pub Groups : Type 0
Groups = List (AppJob × CurrentJob)

abbrev pub key_of : ManagedEntry → AppJob
key_of e = record { app = e.app; job = e.job }

-- `currentBy[key]`, a new group where there is none
unfoldable pub add_entry : ManagedEntry → Groups → Groups
unfolding add_mark
add_entry e [] = (key_of e, add_mark no_current e.hash e.index) ∷ []
add_entry e ((k, cj) ∷ groups) =
    let rest = add_entry e groups in
    if same_key k (key_of e) then (k, add_mark cj e.hash e.index) ∷ groups else (k, cj) ∷ rest

unfoldable pub group_onto : Groups → List ManagedEntry → Groups
unfolding add_entry
group_onto groups [] = groups
group_onto groups (e ∷ es) = group_onto (add_entry e groups) es

unfoldable pub find_group : AppJob → Groups → Option CurrentJob
find_group k [] = none
find_group k ((j, cj) ∷ groups) = if same_key j k then some cj else find_group k groups

unfoldable pub hashes_from : NormalizedJob → ℕ → List Text → List Text
hashes_from job i [] = []
hashes_from job i (s ∷ ss) = hash job i ∷ hashes_from job (suc i) ss

unfoldable pub compute_desired_hashes : NormalizedJob → List Text
unfolding hashes_from
compute_desired_hashes job = hashes_from job 0 job.schedules

unfoldable pub hashes_equal : List Text → List Text → Bool
hashes_equal [] [] = true
hashes_equal (a ∷ as') (b ∷ bs) = equal a b && hashes_equal as' bs
hashes_equal _ _ = false

unfoldable pub join_hashes : List Text → Text
join_hashes [] = []
join_hashes (h ∷ []) = h
join_hashes (h ∷ g ∷ hs) = h ++ (b',' ∷ join_hashes (g ∷ hs))

indices_from : ℕ → ℕ → List ℕ
indices_from zero i = []
indices_from (suc n) i = i ∷ indices_from n (suc i)

-- `indices(n)`: 0 to n - 1
unfoldable pub indices : ℕ → List ℕ
unfolding indices_from
indices n = indices_from n 0

-- The op for a desired job, by what is installed of it.
unfoldable pub job_op : Text → NormalizedJob → Option CurrentJob → Op
unfolding compute_desired_hashes hashes_equal join_hashes indices
job_op app job none = record {
  action = create;
  app = app;
  job_name = job.name;
  job = job;
  old_hash = [];
  new_hash = join_hashes (compute_desired_hashes job);
  indices = indices (length (compute_desired_hashes job));
}
job_op app job (some cj) = record {
  action = if hashes_equal cj.hashes (compute_desired_hashes job) then skip else update;
  app = app;
  job_name = job.name;
  job = job;
  old_hash = join_hashes cj.hashes;
  new_hash = join_hashes (compute_desired_hashes job);
  indices = indices (length (compute_desired_hashes job));
}

unfoldable pub job_ops : Text → Groups → List NormalizedJob → List Op
unfolding job_op find_group
job_ops app groups [] = []
job_ops app groups (job ∷ jobs) =
    job_op app job (find_group (record { app = app; job = job.name }) groups)
    ∷ job_ops app groups jobs

-- `desiredKeys[key]`
unfoldable pub is_desired : Text → List NormalizedJob → AppJob → Bool
is_desired app [] key = false
is_desired app (job ∷ jobs) key =
    let rest = is_desired app jobs key in
    if same_key (record { app = app; job = job.name }) key then true else rest

-- The zero value of the struct, which a delete carries.
abbrev pub no_job : NormalizedJob
no_job = record {
  name = [];
  schedules = [];
  timezone = [];
  request = record { method = []; url = []; headers = []; body = [] };
  policy = record {
    concurrency = [];
    concurrency_scope = [];
    timeout_seconds = pos 0;
    retries = record { max_attempts = pos 0; min_seconds = pos 0; max_seconds = pos 0 };
  };
  auth = record { secret_refs = [] };
}

unfoldable pub delete_op : AppJob → CurrentJob → Op
unfolding join_hashes
delete_op key cj = record {
  action = delete;
  app = key.app;
  job_name = key.job;
  job = no_job;
  old_hash = join_hashes cj.hashes;
  new_hash = [];
  indices = cj.indices;
}

-- The loop over `currentBy`, whose entries come in the order of the argument.
unfoldable pub delete_ops : NormalizedManifest → Groups → List Op
unfolding is_desired delete_op
delete_ops desired [] = []
delete_ops desired ((key, cj) ∷ groups) =
    let rest = delete_ops desired groups in
    if is_desired desired.app desired.jobs key
    then rest
    else if not (equal key.app desired.app)
    then rest
    else delete_op key cj ∷ rest

pub data Computed : Type 0 where
  planned : Plan → Computed
  compute_error : Text → Computed

-- The plan for a listing. `iterate` is the order in which Go ranges over the map, which the
-- language leaves open.
unfoldable pub plan_of : (Groups → Groups) → Text → NormalizedManifest → List ManagedEntry → Plan
unfolding group_onto job_ops delete_ops
plan_of iterate name desired current =
    let groups = group_onto [] current in
    record {
      backend = name;
      ops = job_ops desired.app groups desired.jobs ++ delete_ops desired (iterate groups);
    }

-- `Compute`, and `Drift`, which calls it
unfoldable pub compute :
    {S : Type 0} → (Groups → Groups) → NormalizedManifest → Backend S → S → Computed
unfolding plan_of
compute iterate desired backend s = elim (backend.list s) [
  | listed current ↦ planned (plan_of iterate backend.name desired current)
  | list_error err ↦ compute_error (codes "reconcile: list: " ++ err)
]

pub record Result : Type 0 where
  pub created : ℕ
  pub updated : ℕ
  pub deleted : ℕ
  pub skipped : ℕ

abbrev pub is_action : Action → Action → Bool
is_action create create = true
is_action update update = true
is_action delete delete = true
is_action skip skip = true
is_action _ _ = false

-- The backend's call for an op.
unfoldable pub execute : {S : Type 0} → Backend S → Action → Op → S → S × Option Text
execute backend create op s = backend.create s op.app op.job
execute backend update op s = backend.update s op.app op.job
execute backend delete op s = backend.delete s op.app op.job_name
execute backend skip op s = (s, none)

unfoldable pub action_word : Action → Text
action_word create = codes "create"
action_word update = codes "update"
action_word delete = codes "delete"
action_word skip = codes "skip"

-- `fmt.Errorf("reconcile: delete %s.%s: %w", ...)` and its like
unfoldable pub apply_error : Action → Op → Text → Text
unfolding action_word
apply_error action op err =
    codes "reconcile: "
    ++ (action_word action ++ (b' ' ∷ (op.app ++ (b'.' ∷ (op.job_name ++ (codes ": " ++ err))))))

-- One pass over the ops: the ops of one action in order, up to the first error. The number counts
-- the calls that succeeded.
unfoldable pub run_pass : {S : Type 0} → Backend S → Action → List Op → S → ℕ → S × ℕ × Option Text
unfolding execute apply_error
run_pass backend action [] s n = (s, n, none)
run_pass backend action (op ∷ ops) s n = elim (is_action action op.action) [
  | false ↦ run_pass backend action ops s n
  | true ↦
      let (s', failure) = execute backend action op s in
      elim failure [
        | some err ↦ (s', n, some (apply_error action op err))
        | none ↦ run_pass backend action ops s' (suc n)
      ]
]

unfoldable pub count_action : Action → List Op → ℕ
count_action action [] = 0
count_action action (op ∷ ops) =
    let rest = count_action action ops in if is_action action op.action then suc rest else rest

-- The three passes, and the count of the skipped ops.
unfoldable pub apply : {S : Type 0} → Backend S → Plan → S → S × Result × Option Text
unfolding run_pass count_action
apply backend plan s =
    let (s₁, deleted, failure₁) = run_pass backend delete plan.ops s 0 in
    let (s₂, updated, failure₂) = run_pass backend update plan.ops s₁ 0 in
    let (s₃, created, failure₃) = run_pass backend create plan.ops s₂ 0 in
    elim failure₁ [
      | some err ↦
          (s₁, record { created = 0; updated = 0; deleted = deleted; skipped = 0 }, some err)
      | none ↦ elim failure₂ [
        | some err ↦ (
          s₂,
          record { created = 0; updated = updated; deleted = deleted; skipped = 0 },
          some err,
        )
        | none ↦ elim failure₃ [
          | some err ↦ (
            s₃,
            record { created = created; updated = updated; deleted = deleted; skipped = 0 },
            some err,
          )
          | none ↦ (
            s₃,
            record {
              created = created;
              updated = updated;
              deleted = deleted;
              skipped = count_action skip plan.ops;
            },
            none,
          )
        ]
      ]
    ]

all_skip : List Op → Bool
all_skip [] = true
all_skip (op ∷ ops) = let rest = all_skip ops in if is_action skip op.action then rest else false

unfoldable pub is_noop : Plan → Bool
unfolding all_skip
is_noop plan = all_skip plan.ops
