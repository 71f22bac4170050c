-- ===== src/Crontab/Adopt.antt =====
-- go/internal/backends/crontab/adopt.go: taking over the lines of a crontab that already run a
-- job. The state is the crontab file, as in the backend; a divergence is kept as its parts.
pub mod Inserts
use cronix.Prelude.{
  take, ℕ, Bool, List, ◌⊎◌, Option, false, ◌∷◌, inr, if◌then◌else◌, suc, none, [], some, ltb, not,
  inl, length, ◌&&◌, ◌++◌, true, map, ◌||◌, ◌==◌, zero,
}
use cronix.Prelude.Text.{Text, cut_prefix, equal, fields, trim_space, codes, join}
use cronix.Backends.{ManagedEntry}
use cronix.Manifest.{NormalizedJob}
use cronix.Crontab.{is_owner_line, owner_line, File, is_schedule_line, rewrite, entries, read_file}
use cronix.Policy.{hash}
use cronix.Crontab.Cron.{translate}
use cronix.Manifest.Validate.{match_id}

-- `wantedSchedule`
pub record Wanted : Type 0 where
  pub idx : ℕ
  pub manifest : Text
  pub five_field : Text

pub record Candidate : Type 0 where
  pub line_index : ℕ
  pub five_field : Text

pub data Divergence : Type 0 where
  untranslatable : ℕ → Text → Divergence
  no_candidate : Wanted → Divergence
  no_schedule : Candidate → Divergence

-- `Diverged` is that there are divergences.
pub record AdoptResult : Type 0 where
  pub found : Bool
  pub adopted : Bool
  pub already_managed : Bool
  pub divergences : List Divergence
  pub entries : List ManagedEntry

pub data Outcome : Type 0 where
  failed : Text → Outcome
  result : AdoptResult → Outcome

-- The schedules in crontab's fields, or the first that has none.
unfoldable pub wanted_from : ℕ → List Text → Divergence ⊎ List Wanted
wanted_from i [] = inr []
wanted_from i (s ∷ ss) =
    let others = wanted_from (suc i) ss in
    elim (translate s) [
      | none ↦ inl (untranslatable i s)
      | some ff ↦ elim others [
        | inl d ↦ inl d
        | inr ws ↦ inr (record { idx = i; manifest = s; five_field = ff } ∷ ws)
      ]
    ]

-- What stands behind the first occurrence of the text, as `strings.Index` finds it.
unfoldable pub behind : Text → Text → Option Text
behind f [] = cut_prefix [] f
behind f (c ∷ cs) = elim (cut_prefix (c ∷ cs) f) [ some rest ↦ some rest | none ↦ behind f cs ]

-- Behind the first fields of the line.
unfoldable pub skip_fields : ℕ → List Text → Text → Option Text
skip_fields zero fs line = some line
skip_fields (suc n) [] line = some line
skip_fields (suc n) (f ∷ fs) line = elim (behind f line) [
  | none ↦ none
  | some rest ↦ skip_fields n fs rest
]

-- The five fields of the schedule and the command.
unfoldable pub split_schedule_and_command : Text → Option (Text × Text)
split_schedule_and_command line =
    if ltb (length (fields line)) 6 then none else elim (skip_fields 5 (fields line) line) [
      | none ↦ none
      | some rest ↦ some (join (codes " ") (take 5 (fields line)), trim_space rest)
    ]

unfoldable pub is_marked : List Text → Bool
is_marked [] = false
is_marked (line ∷ lines) = is_owner_line line

-- The schedule of an unmarked line with the command `tail`.
unfoldable pub candidate_of : Text → Text → List Text → Option Text
candidate_of tail line lines =
    if not (is_schedule_line (trim_space line)) || is_marked lines
    then none
    else elim (split_schedule_and_command (trim_space line)) [
      | none ↦ none
      | some p ↦ if equal p.1 tail then some p.0 else none
    ]

unfoldable pub candidates_from : Text → ℕ → List Text → List Candidate
candidates_from tail i [] = []
candidates_from tail i (line ∷ lines) =
    let others = candidates_from tail (suc i) lines in
    elim (candidate_of tail line lines) [
      | none ↦ others
      | some cron ↦ record { line_index = i; five_field = cron } ∷ others
    ]

-- `managedForJob`
unfoldable pub managed_for_job : Text → Text → List ManagedEntry → ℕ
managed_for_job app job [] = 0
managed_for_job app job (m ∷ ms) =
    let n = managed_for_job app job ms in if equal m.app app && equal m.job job then suc n else n

-- The first candidate with the schedule, and the others.
unfoldable pub match_one : Text → List Candidate → Option (Candidate × List Candidate)
match_one five [] = none
match_one five (c ∷ cs) =
    let found = match_one five cs in
    if equal c.five_field five
    then some (c, cs)
    else elim found [ none ↦ none | some p ↦ some (p.0, c ∷ p.1) ]

-- The schedules with their candidates, and the candidates that are not consumed.
unfoldable pub match_all :
    List Wanted → List Candidate → List (Wanted × Option Candidate) × List Candidate
match_all [] cs = ([], cs)
match_all (w ∷ ws) cs = elim (match_one w.five_field cs) [
  | none ↦ let (ms, rest) = match_all ws cs in ((w, none) ∷ ms, rest)
  | some p ↦ let (ms, rest) = match_all ws p.1 in ((w, some p.0) ∷ ms, rest)
]

unfoldable pub unmatched : List (Wanted × Option Candidate) → List Divergence
unmatched [] = []
unmatched (m ∷ ms) = elim m.1 [ none ↦ no_candidate m.0 ∷ unmatched ms | some c ↦ unmatched ms ]

unfoldable pub matched : List (Wanted × Option Candidate) → List (Wanted × Candidate)
matched [] = []
matched (m ∷ ms) = elim m.1 [ none ↦ matched ms | some c ↦ (m.0, c) ∷ matched ms ]

-- `ins[j].after > ins[i].after`: the inner loop of the sort, which brings the largest to the front.
unfoldable pub exchange :
    Wanted × Candidate
    → List (Wanted × Candidate)
    → (Wanted × Candidate) × List (Wanted × Candidate)
exchange x [] = (x, [])
exchange x (y ∷ ys) =
    let larger = exchange y ys in
    let same = exchange x ys in
    if ltb x.1.line_index y.1.line_index then (larger.0, x ∷ larger.1) else (same.0, y ∷ same.1)

-- The outer loop; the fuel is the number of insertions.
unfoldable pub exchange_sort : ℕ → List (Wanted × Candidate) → List (Wanted × Candidate)
exchange_sort n [] = []
exchange_sort zero (x ∷ xs) = x ∷ xs
exchange_sort (suc n) (x ∷ xs) = let (m, rest) = exchange x xs in m ∷ exchange_sort n rest

-- `append(out[:after+1], marker, out[after+1:]...)`; the index is that of a candidate, a line of
-- the file.
unfoldable pub insert_after : ℕ → Text → List Text → List Text
insert_after i marker [] = []
insert_after zero marker (line ∷ lines) = line ∷ marker ∷ lines
insert_after (suc i) marker (line ∷ lines) = line ∷ insert_after i marker lines

unfoldable pub line_at : ℕ → List Text → Text
line_at i [] = []
line_at zero (line ∷ lines) = line
line_at (suc i) (line ∷ lines) = line_at i lines

module _ (trigger_bin app : Text) (job : NormalizedJob) where
  unfoldable pub insert_markers : List (Wanted × Candidate) → List Text → List Text
  insert_markers [] lines = lines
  insert_markers (p ∷ ps) lines =
      insert_markers ps
        (insert_after p.1.line_index (owner_line app job.name (hash job p.0.idx) p.0.idx) lines)

  -- `entries`, with `raw` the line of the candidate
  unfoldable pub adopted_entries : List Text → List (Wanted × Candidate) → List ManagedEntry
  adopted_entries lines [] = []
  adopted_entries lines (p ∷ ps) =
      record {
        app = app;
        job = job.name;
        hash = hash job p.0.idx;
        index = p.0.idx;
        raw = line_at p.1.line_index lines;
      }
      ∷ adopted_entries lines ps

  -- The result after the rewrite.
  unfoldable pub written : List ManagedEntry → File × Option Text → File × Outcome
  written es (file', some err) = (file', failed err)
  written es (file', none) = (
    file',
    result (record {
      found = true;
      adopted = true;
      already_managed = false;
      divergences = [];
      entries = es;
    }),
  )

  -- The end of `Adopt`, where every schedule has its line.
  unfoldable pub write_markers :
      Bool → List (Wanted × Candidate) → List Text → File → File × Outcome
  unfolding rewrite insert_markers exchange_sort written adopted_entries
  write_markers true pairs lines file = (
    file,
    result (record {
      found = true;
      adopted = false;
      already_managed = false;
      divergences = [];
      entries = adopted_entries lines pairs;
    }),
  )
  write_markers false pairs lines file =
      written (adopted_entries lines pairs)
        (rewrite (insert_markers (exchange_sort (length pairs) pairs)) file)

  unfoldable pub diverged_result : Bool → List Divergence → Outcome
  diverged_result found ds = result (record {
    found = found;
    adopted = false;
    already_managed = false;
    divergences = ds;
    entries = [];
  })

  -- From the divergences on.
  unfoldable pub adopt_pairs :
      Bool → Bool → List Divergence → List (Wanted × Candidate) → List Text → File → File × Outcome
  unfolding diverged_result write_markers
  adopt_pairs dry_run found (d ∷ ds) pairs lines file = (file, diverged_result found (d ∷ ds))
  adopt_pairs dry_run found [] pairs lines file = write_markers dry_run pairs lines file

  -- From the schedules and the candidates on.
  unfoldable pub adopt_matched :
      Bool → List Wanted → List Candidate → List Text → File → File × Outcome
  unfolding adopt_pairs match_all unmatched matched
  adopt_matched dry_run ws cs lines file =
      let (ms, rest) = match_all ws cs in
      adopt_pairs dry_run (ltb 0 (length cs)) (unmatched ms ++ map no_schedule rest) (matched ms)
        lines file

  unfoldable pub adopt_wanted :
      Bool → Divergence ⊎ List Wanted → List Candidate → List Text → File → File × Outcome
  unfolding adopt_matched diverged_result managed_for_job
  adopt_wanted dry_run (inl d) cs lines file = (file, diverged_result false (d ∷ []))
  adopt_wanted dry_run (inr ws) cs lines file =
      if (managed_for_job app job.name (entries lines) == length ws) && (length cs == 0)
      then (
        file,
        result (record {
          found = false;
          adopted = false;
          already_managed = true;
          divergences = [];
          entries = [];
        }),
      )
      else adopt_matched dry_run ws cs lines file

  unfoldable pub adopt_read : Bool → File → Option (List Text) → File × Outcome
  unfolding adopt_wanted wanted_from candidates_from
  adopt_read dry_run file none = (file, failed (codes "bufio.Scanner: token too long"))
  adopt_read dry_run file (some lines) =
      let tail = trigger_bin ++ (codes " trigger " ++ (app ++ (b'.' ∷ job.name))) in
      adopt_wanted dry_run (wanted_from 0 job.schedules) (candidates_from tail 0 lines) lines file

  -- `Adopt`
  unfoldable pub adopt : Bool → File → File × Outcome
  unfolding adopt_read
  adopt dry_run file =
      if not (match_id app)
      then (file, failed (codes "crontab: invalid app id"))
      else if not (match_id job.name)
      then (file, failed (codes "crontab: invalid job name"))
      else adopt_read dry_run file (read_file file)
