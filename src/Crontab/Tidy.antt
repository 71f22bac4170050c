-- ===== src/Crontab/Tidy.antt =====
-- What a rewrite of a tidy crontab leaves, and the marks of the lines that are rendered.
use cronix.Prelude.{
  append-nil, [], ◌∷◌, ℕ, suc, List, All, Option, some, none, ◌≡◌, true, false, ◌++◌, ◌+◌, ◌<◌,
  refl, if◌then◌else◌, arith, Bool, All-append, ◌∙◌, length,
}
use cronix.Prelude.Text.{Text}
use cronix.Prelude.Text.Decimal.{decimal, parse_int-decimal}
use cronix.Policy.{hash}
use cronix.Manifest.{NormalizedJob}
use cronix.Manifest.Validate.{match_id}
use cronix.Backends.{ManagedEntry}
use cronix.Reconcile.{AppJob, same_key}
use cronix.Reconcile.Grouping.{marks_of, marks_from, desired_marks}
use cronix.Crontab.{
  File, read_file, write_lines, scan_lines, rewrite, rewrite_with, entries, render, render_from,
  schedule_line, strip_owned_for, is_owner_line, index_of,
}
use cronix.Crontab.Cron.{translate}
use cronix.Crontab.Owner.{match_owner, owner_line}
use cronix.Crontab.OwnerLine.{match_owner-owner_line}
use cronix.Crontab.Hashes.{hash-all, is_hash-hash}
use cronix.Crontab.Lines.{IsLine, scan_lines-write_lines}
use cronix.Crontab.Blocks.{
  Spaced, Spaced-append, line_marks, marks_of-entries, strip_owned_for-keep, All-keep, Spaced-keep,
  line_marks-keep, line_marks-plain,
}

-- A file whose lines survive a rewrite, with no adjacent owner lines and none at the start.
abbrev pub IsTidy : List Text → Type 0
IsTidy lines = All IsLine lines × Spaced false lines

abbrev pub Good : File → Type 0
Good file = (lines : List Text) × (read_file file ≡ some lines) × IsTidy lines

abbrev view_of : Option (List Text) → List ManagedEntry
view_of none = []
view_of (some lines) = entries lines

abbrev pub view : File → List ManagedEntry
view file = view_of (read_file file)

-- Every schedule translates, and its line is no ownership comment.
abbrev pub Translates : Text → Text → Text → List Text → Type 0
Translates trigger_bin app job [] = Unit
Translates trigger_bin app job (sched ∷ scheds) =
    ((cron : Text) × (translate sched ≡ some cron)
      × (is_owner_line (schedule_line cron trigger_bin app job) ≡ false))
    × Translates trigger_bin app job scheds

-- The jobs that a crontab can hold: with well-formed names, schedules that translate, and lines
-- without line breaks that fit in the scanner's buffer.
abbrev pub Supported : Text → Text → NormalizedJob → Type 0
Supported trigger_bin app job =
    (match_id app ≡ true)
    × (match_id job.name ≡ true)
    × Translates trigger_bin app job.name job.schedules
    × All IsLine (render app trigger_bin job)
    × (length job.schedules < 9223372036854775808)

-- What a rewrite leaves.
pub rewrite-Good :
    (fn : List Text → List Text) (file : File) (lines : List Text)
    → read_file file ≡ some lines
    → IsTidy (fn lines)
    → ((rewrite fn file).1 ≡ none)
      × Good (rewrite fn file).0
      × ((k : AppJob) → marks_of k (view (rewrite fn file).0) ≡ line_marks k (fn lines))
unfolding rewrite rewrite_with read_file
rewrite-Good fn file lines e tidy =
    let again : scan_lines (write_lines (fn lines)) ≡ some (fn lines) =
      scan_lines-write_lines (fn lines) tidy.0 in
    rw (e, rewrite)
      (refl, (fn lines, again, tidy), λ k. rw again (marks_of-entries k (fn lines) tidy.1))

module _ (trigger_bin app : Text) (job : NormalizedJob) (a : match_id app ≡ true)
    (j : match_id job.name ≡ true) where
  pub read_owner :
      (i : ℕ)
      → match_owner (owner_line app job.name (hash job i) i)
        ≡ some (record { app = app; job = job.name; hash = hash job i; idx = decimal i })
  read_owner i =
      match_owner-owner_line app job.name (hash job i) i a j (hash-all job i) (is_hash-hash job i)

  Spaced-render_from :
      (i : ℕ) (scheds : List Text) (p : Bool)
      → Translates trigger_bin app job.name scheds
      → Spaced p (render_from app trigger_bin job i scheds)
  unfolding render_from Spaced
  Spaced-render_from i [] p t = tt
  Spaced-render_from i (sched ∷ scheds) p t =
      let (cron, e, plain) = t.0 in
      rw (e, render_from)
        (
          (λ h. cc (plain, h)),
          ((λ h. ground (arith, plain)), Spaced-render_from (suc i) scheds _ t.1),
        )

  line_marks-owner_line :
      (k : AppJob) (i : ℕ) (rest : List Text)
      → i < 9223372036854775808
      → line_marks k (owner_line app job.name (hash job i) i ∷ rest) ≡ (
          if same_key (record { app = app; job = job.name }) k
          then (hash job i, i) ∷ line_marks k rest
          else line_marks k rest)
  unfolding line_marks index_of
  line_marks-owner_line k i rest b = rw (read_owner i, line_marks, parse_int-decimal i b) refl

  line_marks-render_from :
      (k : AppJob) (i : ℕ) (scheds : List Text)
      → Translates trigger_bin app job.name scheds
      → i + length scheds < 9223372036854775808
      → line_marks k (render_from app trigger_bin job i scheds) ≡ (
          if same_key (record { app = app; job = job.name }) k then marks_from job i scheds else [])
  unfolding render_from marks_from line_marks
  line_marks-render_from k i [] t b = ground arith
  line_marks-render_from k i (sched ∷ scheds) t b =
      let (cron, e, plain) = t.0 in
      let later = render_from app trigger_bin job (suc i) scheds in
      rw (e, render_from)
        (line_marks-plain app job.name k (schedule_line cron trigger_bin app job.name)
            (owner_line app job.name (hash job i) i ∷ later) plain
          ∙ (line_marks-owner_line k i later (omega arith)
              ∙ ground (arith, line_marks-render_from k (suc i) scheds t.1)))

module _ (trigger_bin app : Text) (job : NormalizedJob) (s : Supported trigger_bin app job) where
  pub render-line_marks :
      (k : AppJob)
      → line_marks k (render app trigger_bin job)
        ≡ (if same_key (record { app = app; job = job.name }) k then desired_marks job else [])
  unfolding render
  render-line_marks k =
      line_marks-render_from trigger_bin app job s.0 s.1 k 0 job.schedules s.2 (ground (arith, s.4))

  pub IsTidy-render :
      (lines : List Text) → IsTidy lines → IsTidy (lines ++ render app trigger_bin job)
  unfolding render
  IsTidy-render lines h = (
    All-append IsLine lines (render app trigger_bin job) h.0 s.3,
    Spaced-append lines (render app trigger_bin job) false h.1
        (λ p. Spaced-render_from trigger_bin app job s.0 s.1 0 job.schedules p s.2),
  )

pub IsTidy-strip :
    (app job : Text) (lines : List Text) → IsTidy lines → IsTidy (strip_owned_for lines app job)
IsTidy-strip app job lines h =
    rw (strip_owned_for-keep app job lines h.1)
      (All-keep app job IsLine lines none h.0, Spaced-keep app job lines none false tt h.1)

pub line_marks-strip :
    (app job : Text) (lines : List Text) (k : AppJob)
    → IsTidy lines
    → line_marks k (strip_owned_for lines app job)
      ≡ (if same_key (record { app = app; job = job }) k then [] else line_marks k lines)
line_marks-strip app job lines k h =
    rw (strip_owned_for-keep app job lines h.1) (line_marks-keep app job k lines none tt h.1)

module _ {A : Type 0} where
  pub if-append :
      (b : Bool) (xs ys : List A) → xs ++ (if b then ys else []) ≡ (if b then xs ++ ys else xs)
  if-append true xs ys = refl
  if-append false xs ys = append-nil xs

  pub if-append_if :
      (b : Bool) (xs ys : List A)
      → (if b then [] else xs) ++ (if b then ys else []) ≡ (if b then ys else xs)
  if-append_if true xs ys = refl
  if-append_if false xs ys = append-nil xs

pub marks_of-view :
    (file : File) (lines : List Text) (k : AppJob)
    → read_file file ≡ some lines
    → IsTidy lines
    → marks_of k (view file) ≡ line_marks k lines
marks_of-view file lines k e h = rw e (marks_of-entries k lines h.1)
