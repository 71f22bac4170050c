-- ===== src/Crontab.antt =====
-- go/internal/backends/crontab: the crontab file as a backend. The state is the file's content, or
-- `none` where there is no file. Calls of the operating system that fail are not modelled: the
-- lock is free, and the file can be read and replaced. The lock file keeps two rewrites apart, so
-- that one rewrite is one step. An error's text leaves out the quoted value.
pub mod Cron
pub mod Owner
pub mod OwnerLine
pub mod Blocks
pub mod Hashes
pub mod Lines
pub mod Tidy
pub mod Restore
pub mod Contract
pub mod Adopt
use cronix.Prelude.{
  Option, ℕ, List, ◌∷◌, some, Bool, [], if◌then◌else◌, ◌++◌, false, none, ◌==◌, all, not, ◌&&◌, ltb,
  length, map, true, drop, suc,
}
use cronix.Prelude.Text.{Text, split, codes, equal}
use cronix.Manifest.Validate.{match_id}
use cronix.Prelude.Int.{ℤ, pos}
use mathlib.Core.List.{reverse}
use cronix.Manifest.{NormalizedJob}
use cronix.Policy.{hash}
use cronix.Backends.{ManagedEntry, Listing, listed, list_error, Backend}
use cronix.Crontab.Cron.{translate}
use cronix.Crontab.Owner.{match_owner, owner_line}
use cronix.Prelude.Text.Decimal.{parse_int, decimal}

abbrev pub File : Type 0
File = Option Text

-- The most bytes that the scanner's buffer holds.
abbrev pub buffer_size : ℕ
buffer_size = 1048576

-- The scanner drops a carriage return at the end of a line.
unfoldable pub drop_cr : Text → Text
drop_cr [] = []
drop_cr (c ∷ []) = if c == 13 then [] else c ∷ []
drop_cr (c ∷ d ∷ cs) = c ∷ drop_cr (d ∷ cs)

-- Nothing stands behind the last newline, or a line without one.
unfoldable pub drop_empty_end : List Text → List Text
drop_empty_end [] = []
drop_empty_end (t ∷ []) = elim t [ [] ↦ [] | c ∷ cs ↦ (c ∷ cs) ∷ [] ]
drop_empty_end (t ∷ u ∷ us) = t ∷ drop_empty_end (u ∷ us)

-- The lines that `bufio.Scanner` yields, or `none` where one does not fit in its buffer.
unfoldable pub scan_lines : Text → Option (List Text)
unfolding drop_cr drop_empty_end
scan_lines content =
    let pieces = drop_empty_end (split 10 content) in
    if all (λ t. ltb (length t) buffer_size) pieces then some (map drop_cr pieces) else none

-- `readFile`: its lines, none where the file is missing
unfoldable pub read_file : File → Option (List Text)
unfolding scan_lines
read_file none = some []
read_file (some content) = scan_lines content

-- `atomicWrite`
unfoldable pub write_lines : List Text → Text
write_lines [] = []
write_lines (line ∷ lines) = line ++ (10 ∷ write_lines lines)

pub record RawEntry : Type 0 where
  pub schedule_line : Text
  pub owner_line : Text

-- `prev != "" && !strings.HasPrefix(prev, "#")`
unfoldable pub is_schedule_line : Text → Bool
is_schedule_line [] = false
is_schedule_line (c ∷ cs) = not (c == b'#')

unfoldable pub is_owner_line : Text → Bool
unfolding match_owner
is_owner_line line = elim (match_owner line) [ none ↦ false | some o ↦ true ]

-- The pairs that `parseLines` finds behind the line `prev`.
unfoldable pub raw_entries : Text → List Text → List RawEntry
unfolding is_schedule_line is_owner_line
raw_entries prev [] = []
raw_entries prev (line ∷ lines) =
    let others = raw_entries line lines in
    if is_owner_line line && is_schedule_line prev
    then record { schedule_line = prev; owner_line = line } ∷ others
    else others

unfoldable pub parse_lines : Text → Option (List RawEntry × List Text)
unfolding raw_entries scan_lines
parse_lines content = elim (scan_lines content) [
  | none ↦ none
  | some lines ↦ some (raw_entries [] lines, lines)
]

-- Whether the line marks the job as owned.
unfoldable pub owned_by : Text → Text → Text → Bool
unfolding match_owner
owned_by app job line = elim (match_owner line) [
  | none ↦ false
  | some o ↦ equal o.app app && equal o.job job
]

-- `out` holds the lines kept so far, the last one first.
unfoldable pub strip_onto : Text → Text → List Text → List Text → List Text
strip_onto app job out [] = reverse out
strip_onto app job out (line ∷ lines) =
    if owned_by app job line
    then strip_onto app job (drop 1 out) lines
    else strip_onto app job (line ∷ out) lines

unfoldable pub strip_owned_for : List Text → Text → Text → List Text
unfolding strip_onto
strip_owned_for lines app job = strip_onto app job [] lines

-- `<5-field cron> <triggerBin> trigger <app>.<job>`
unfoldable pub schedule_line : Text → Text → Text → Text → Text
schedule_line cron trigger_bin app job =
    cron ++ (b' ' ∷ (trigger_bin ++ (codes " trigger " ++ (app ++ (b'.' ∷ job)))))

-- The blocks of the schedules from index `i` on.
unfoldable pub render_from : Text → Text → NormalizedJob → ℕ → List Text → List Text
render_from app trigger_bin job i [] = []
render_from app trigger_bin job i (sched ∷ scheds) =
    let others = render_from app trigger_bin job (suc i) scheds in
    elim (translate sched) [
      | none ↦ others
      | some cron ↦
          schedule_line cron trigger_bin app job.name
          ∷ owner_line app job.name (hash job i) i
          ∷ others
    ]

unfoldable pub render : Text → Text → NormalizedJob → List Text
unfolding render_from
render app trigger_bin job = render_from app trigger_bin job 0 job.schedules

-- `idx, _ := strconv.Atoi(...)`, which is the largest integer where the digits do not fit
unfoldable pub index_of : Option ℤ → ℕ
index_of (some (pos n)) = n
index_of _ = 9223372036854775807

-- The marked lines behind the line `prev`.
unfoldable pub entries_after : Text → List Text → List ManagedEntry
unfolding match_owner index_of
entries_after prev [] = []
entries_after prev (line ∷ lines) =
    let others = entries_after line lines in
    elim (match_owner line) [
      | none ↦ others
      | some o ↦
          record {
            app = o.app;
            job = o.job;
            hash = o.hash;
            index = index_of (parse_int o.idx);
            raw = prev;
          }
          ∷ others
    ]

-- The entries of the lines, the first of which is never one.
unfoldable pub entries : List Text → List ManagedEntry
unfolding entries_after
entries [] = []
entries (line ∷ lines) = entries_after line lines

unfoldable pub list_of : Option (List Text) → Listing
list_of none = list_error (codes "bufio.Scanner: token too long")
list_of (some lines) = listed (entries lines)

unfoldable pub rewrite_with :
    (List Text → List Text) → File → Option (List Text) → File × Option Text
rewrite_with fn file none = (file, some (codes "bufio.Scanner: token too long"))
rewrite_with fn file (some lines) = (some (write_lines (fn lines)), none)

unfoldable pub rewrite : (List Text → List Text) → File → File × Option Text
rewrite fn file = rewrite_with fn file (read_file file)

-- The backend with the path of the cronix binary.
unfoldable pub crontab : Text → Backend File
crontab trigger_bin = record {
  name = codes "crontab";
  list = λ file. list_of (read_file file);
  create = λ file app job.
      if not (match_id app)
      then (file, some (codes "crontab: invalid app id"))
      else if not (match_id job.name)
      then (file, some (codes "crontab: invalid job name"))
      else rewrite (λ lines. lines ++ render app trigger_bin job) file;
  update = λ file app job.
      if not (match_id app)
      then (file, some (codes "crontab: invalid app id"))
      else rewrite (λ lines. strip_owned_for lines app job.name ++ render app trigger_bin job) file;
  delete = λ file app job_name.
      if not (match_id app)
      then (file, some (codes "crontab: invalid app id"))
      else rewrite (λ lines. strip_owned_for lines app job_name) file;
}

schedule_issues : ℕ → List Text → List Text
unfolding translate
schedule_issues i [] = []
schedule_issues i (sched ∷ scheds) =
    let others = schedule_issues (suc i) scheds in
    elim (translate sched) [
      | some cron ↦ others
      | none ↦
          (codes "schedules[" ++ (decimal i ++ codes "]: cannot translate to 5-field crontab"))
          ∷ others
    ]

-- The issues of `Validate`; the result is OK where there are none.
unfoldable pub backend_issues : NormalizedJob → List Text
unfolding schedule_issues
backend_issues job =
    schedule_issues 0 job.schedules
    ++ (if equal job.timezone (codes "UTC")
        then []
        else codes "crontab does not support per-job timezone" ∷ [])
