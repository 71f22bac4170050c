-- ===== src/History.antt =====
-- go/internal/backends/historyutil/historyutil.go: the runs of a job, from the log records of the
-- trigger shim. An instant is a number of nanoseconds, or `none` for the zero time, which is before
-- all others.
pub mod Runs
pub mod Messages
use cronix.Prelude.{
  ℕ, Option, Bool, List, if◌then◌else◌, true, false, some, none, ◌∷◌, ◌||◌, [], not, ◌*◌, ◌&&◌, ◌+◌,
}
use cronix.Prelude.Text.{Text, equal, trim_space, split, codes}
use cronix.Prelude.Int.{ℤ, pos, ltℤ, negsuc}
use cronix.Prelude.Text.Decimal.{parse_int}

-- Of a record, the fields that are read.
pub record ShimEvent : Type 0 where
  pub time : Text
  pub msg : Text
  pub app : Text
  pub job : Text
  pub run_id : Text
  pub attempt : ℤ

pub record JournalRecord : Type 0 where
  pub timestamp : Text
  pub message : Text

abbrev pub Instant : Type 0
Instant = Option ℤ

pub record HistoryEntry : Type 0 where
  pub app : Text
  pub job : Text
  pub run_id : Text
  pub attempt : ℤ
  pub started_at : Instant
  pub finished_at : Instant
  pub status : Text
  pub source : Text

-- encoding/json on the two record types, where `none` is an error, and `time.Parse` with the
-- layout RFC3339, which is the zero time on an error.
pub record Decoders : Type 0 where
  pub journal_record : Text → Option JournalRecord
  pub shim_event : Text → Option ShimEvent
  pub parse_time : Text → Instant

-- `ClassifyShimEvent`: the status and whether it is terminal, `none` where the status is empty
unfoldable pub classify_shim_event : Text → Option (Text × Bool)
classify_shim_event msg =
    if equal msg (codes "trigger: success")
    then some (codes "ok", true)
    else if equal msg (codes "trigger: app rejected")
    then some (codes "failed", true)
    else if equal msg (codes "trigger: retries exhausted")
    then some (codes "failed", true)
    else if equal msg (codes "trigger: lock contended")
    then some (codes "lock-contended", true)
    else if equal msg (codes "trigger: panic")
    then some (codes "failed", true)
    else if equal msg (codes "trigger: attempt failed") || equal msg (codes "trigger: server error")
    then some (codes "failed", false)
    else none

-- `parseJournalTimestamp`: microseconds
unfoldable pub parse_journal_timestamp : Text → Instant
parse_journal_timestamp s = elim (parse_int s) [
  | none ↦ none
  | some (pos n) ↦ some (pos (n * 1000))
  | some (negsuc n) ↦ some (negsuc (n * 1000 + 999))
]

is_empty : Text → Bool
is_empty [] = true
is_empty (c ∷ cs) = false

-- The record is shim JSON itself.
decode_raw : Decoders → Text → Option (ShimEvent × Instant)
decode_raw d line = elim (d.shim_event line) [
  | none ↦ none
  | some ev ↦ some (ev, d.parse_time ev.time)
]

-- A record of journald holds one, with a run id.
decode_wrapped : Decoders → JournalRecord → Option (ShimEvent × Instant)
unfolding is_empty parse_journal_timestamp
decode_wrapped d rec = elim (d.shim_event rec.message) [
  | none ↦ none
  | some ev ↦
      if is_empty rec.message || is_empty ev.run_id
      then none
      else some (ev, parse_journal_timestamp rec.timestamp)
]

-- `decodeLine`
unfoldable pub decode_line : Decoders → Text → Option (ShimEvent × Instant)
unfolding decode_raw decode_wrapped
decode_line d line = elim (d.journal_record line) [
  | none ↦ decode_raw d line
  | some rec ↦ elim (decode_wrapped d rec) [ none ↦ decode_raw d line | some found ↦ some found ]
]

-- `a.Before(b)`
unfoldable pub before : Instant → Instant → Bool
before a none = false
before none (some b) = true
before (some a) (some b) = ltℤ a b

-- What the records of one run have made of its entry. `status` is the one of a record at `when`.
unfoldable pub observe :
    Text → Text → Text → Option HistoryEntry → ShimEvent → Instant → Text × Bool → HistoryEntry
unfolding before
observe app job source none ev when (status, terminal) = record {
  app = app;
  job = job;
  run_id = ev.run_id;
  attempt = ev.attempt;
  started_at = when;
  finished_at = when;
  status = status;
  source = source;
}
observe app job source (some he) ev when (status, false) = he
observe app job source (some he) ev when (status, true) = record {
  app = app;
  job = job;
  run_id = ev.run_id;
  attempt = ev.attempt;
  started_at = elim he.started_at [
    | none ↦ when
    | some t ↦ if before when (some t) then when else some t
  ];
  finished_at = when;
  status = status;
  source = source;
}

-- The entries in the order of the first records of their runs.
abbrev pub Runs : Type 0
Runs = List (Text × HistoryEntry)

unfoldable pub find_run : Text → Runs → Option HistoryEntry
find_run id [] = none
find_run id ((k, he) ∷ runs) = let rest = find_run id runs in if equal k id then some he else rest

unfoldable pub put_run : Text → HistoryEntry → Runs → Runs
put_run id he [] = (id, he) ∷ []
put_run id he ((k, old) ∷ runs) =
    let rest = put_run id he runs in if equal k id then (k, he) ∷ runs else (k, old) ∷ rest

-- Whether the filter admits the value; the empty filter, and an empty value, do.
unfoldable pub admits : Text → Text → Bool
unfolding is_empty
admits wanted value = is_empty wanted || is_empty value || equal value wanted

-- A record that counts: its event, its instant and its classification.
unfoldable pub relevant :
    Text → Text → Option (ShimEvent × Instant) → Option (ShimEvent × Instant × Text × Bool)
unfolding is_empty admits classify_shim_event
relevant app job none = none
relevant app job (some (ev, when)) =
    if is_empty ev.run_id
    then none
    else if not (admits app ev.app)
    then none
    else if not (admits job ev.job)
    then none
    else elim (classify_shim_event ev.msg) [ none ↦ none | some (s, t) ↦ some (ev, when, s, t) ]

abbrev pub Record : Type 0
Record = ShimEvent × Instant × Text × Bool

-- The body of the loop behind its guards.
unfoldable pub add_record : Text → Text → Text → Record → Runs → Runs
unfolding observe find_run put_run
add_record app job source (ev, when, status, terminal) runs =
    put_run ev.run_id (observe app job source (find_run ev.run_id runs) ev when (status, terminal))
      runs

unfoldable pub collect : Text → Text → Text → Runs → List Record → Runs
unfolding add_record
collect app job source runs [] = runs
collect app job source runs (r ∷ rs) = collect app job source (add_record app job source r runs) rs

-- The records of the lines that count.
unfoldable pub records : Decoders → Text → Text → List Text → List Record
unfolding decode_line relevant
records d app job [] = []
records d app job (line ∷ lines) =
    let rest = records d app job lines in
    elim (trim_space line) [
      | [] ↦ rest
      | c ∷ cs ↦ elim (relevant app job (decode_line d (c ∷ cs))) [
        | none ↦ rest
        | some r ↦ r ∷ rest
      ]
    ]

select : Text → Runs → List HistoryEntry
unfolding is_empty
select wanted [] = []
select wanted ((k, he) ∷ runs) =
    let rest = select wanted runs in
    if not (is_empty wanted) && not (equal he.status wanted) then rest else he ∷ rest

-- `FoldShimLogs`. Newlines at the end make empty lines, which are passed over.
unfoldable pub fold_shim_logs : Decoders → Text → Text → Text → Text → Text → List HistoryEntry
unfolding collect records select
fold_shim_logs d raw app job source status_filter =
    select status_filter (collect app job source [] (records d app job (split 10 raw)))
