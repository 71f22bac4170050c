-- ===== src/Crontab/Contract.antt =====
-- The crontab keeps the contract that the reconciler relies on, so that reconciling it converges.
use cronix.Prelude.{[], List, All, some, none, ◌≡◌, true, ◌++◌, refl, if◌then◌else◌, ◌∙◌}
use cronix.Prelude.Text.{Text}
use cronix.Manifest.{NormalizedJob}
use cronix.Manifest.Validate.{match_id}
use cronix.Backends.{listed}
use cronix.Reconcile.{AppJob, same_key}
use cronix.Reconcile.Grouping.{marks_of, desired_marks}
use cronix.Reconcile.Effect.{Contract}
use cronix.Crontab.{File, crontab, read_file, list_of, render, strip_owned_for}
use cronix.Crontab.Blocks.{line_marks, line_marks-append}
use cronix.Reconcile.{Groups, Plan, compute, planned, apply, is_noop}
use cronix.Reconcile.Converge.{Ranges, DistinctNames}
use cronix.Reconcile.Noop.{apply-converges}
use cronix.Manifest.{NormalizedManifest}
use cronix.Prelude.{◌≢◌}
use cronix.Crontab.Tidy.{
  IsTidy, Good, view, Supported, rewrite-Good, IsTidy-render, render-line_marks, IsTidy-strip,
  line_marks-strip, if-append, if-append_if, marks_of-view,
}

module _ (trigger_bin : Text) where
  pub create_marks :
      (file : File) (app : Text) (job : NormalizedJob)
      → Good file
      → Supported trigger_bin app job
      → (((crontab trigger_bin).create file app job).1 ≡ none)
        × Good ((crontab trigger_bin).create file app job).0
        × ((k : AppJob)
            → marks_of k (view ((crontab trigger_bin).create file app job).0) ≡ (
                if same_key (record { app = app; job = job.name }) k
                then marks_of k (view file) ++ desired_marks job
                else marks_of k (view file)))
  unfolding crontab
  create_marks file app job (lines, e, tidy) s =
      let fn : List Text → List Text = λ ls. ls ++ render app trigger_bin job in
      let (fine, good, marks) =
        rewrite-Good fn file lines e (IsTidy-render trigger_bin app job s lines tidy) in
      rw (s.0, s.1)
        (
          fine,
          good,
          λ k. rw (marks_of-view file lines k e tidy) (
              marks k
              ∙ (line_marks-append k lines (render app trigger_bin job)
                  ∙ rw (render-line_marks trigger_bin app job s k)
                      (if-append _ (line_marks k lines) (desired_marks job)))),
        )

  pub update_marks :
      (file : File) (app : Text) (job : NormalizedJob)
      → Good file
      → Supported trigger_bin app job
      → (((crontab trigger_bin).update file app job).1 ≡ none)
        × Good ((crontab trigger_bin).update file app job).0
        × ((k : AppJob)
            → marks_of k (view ((crontab trigger_bin).update file app job).0) ≡ (
                if same_key (record { app = app; job = job.name }) k
                then desired_marks job
                else marks_of k (view file)))
  unfolding crontab
  update_marks file app job (lines, e, tidy) s =
      let left = strip_owned_for lines app job.name in
      let fn : List Text → List Text =
        λ ls. strip_owned_for ls app job.name ++ render app trigger_bin job in
      let (fine, good, marks) =
        rewrite-Good fn file lines e
          (IsTidy-render trigger_bin app job s left (IsTidy-strip app job.name lines tidy)) in
      rw s.0 (
        fine,
        good,
        λ k. rw (marks_of-view file lines k e tidy) (
            marks k
            ∙ (line_marks-append k left (render app trigger_bin job)
                ∙ rw
                    (
                      render-line_marks trigger_bin app job s k,
                      line_marks-strip app job.name lines k tidy,
                    )
                    (if-append_if _ (line_marks k lines) (desired_marks job)))),
      )

  pub delete_marks :
      (file : File) (app job : Text)
      → Good file
      → match_id app ≡ true
      → (((crontab trigger_bin).delete file app job).1 ≡ none)
        × Good ((crontab trigger_bin).delete file app job).0
        × ((k : AppJob)
            → marks_of k (view ((crontab trigger_bin).delete file app job).0) ≡ (
                if same_key (record { app = app; job = job }) k
                then []
                else marks_of k (view file)))
  unfolding crontab
  delete_marks file app job (lines, e, tidy) a =
      let fn : List Text → List Text = λ ls. strip_owned_for ls app job in
      let (fine, good, marks) = rewrite-Good fn file lines e (IsTidy-strip app job lines tidy) in
      rw a (
        fine,
        good,
        λ k.
            rw (marks_of-view file lines k e tidy)
              (marks k ∙ line_marks-strip app job lines k tidy),
      )

  pub list_view : (file : File) → Good file → (crontab trigger_bin).list file ≡ listed (view file)
  unfolding crontab list_of
  list_view file (lines, e, tidy) = rw e refl

  abbrev pub crontab_contract : Contract (crontab trigger_bin)
  crontab_contract = record {
    Good = Good;
    Supported = Supported trigger_bin;
    view = view;
    list_view = list_view;
    create_marks = create_marks;
    update_marks = update_marks;
    delete_marks = delete_marks;
  }

-- Reconciling a crontab converges (D-027): from a file whose lines survive a rewrite, with no
-- adjacent ownership comments and none on its first line, for a manifest with a well-formed app id
-- and jobs of distinct names, each with a schedule and supported (its schedules translate, and its
-- lines have no line breaks and fit in the scanner's buffer): `Compute` gives a plan, `Apply`
-- executes it without an error, and `Compute` on the file that it leaves gives a plan that is a
-- no-op, in whatever orders Go ranges over the maps.
pub crontab-converges :
    (trigger_bin : Text) (iterate iterate' : Groups → Groups) (desired : NormalizedManifest)
    (file : File) (lines : List Text)
    → Ranges iterate
    → Ranges iterate'
    → read_file file ≡ some lines
    → IsTidy lines
    → match_id desired.app ≡ true
    → DistinctNames desired.jobs
    → All (λ j. j.schedules ≢ []) desired.jobs
    → All (Supported trigger_bin desired.app) desired.jobs
    → (plan : Plan) × (compute iterate desired (crontab trigger_bin) file ≡ planned plan)
      × ((apply (crontab trigger_bin) plan file).2 ≡ none)
      × (plan' : Plan) × (compute iterate' desired
            (crontab trigger_bin)
            (apply (crontab trigger_bin) plan file).0
          ≡ planned plan')
      × (is_noop plan' ≡ true)
crontab-converges trigger_bin iterate iterate' desired file lines r r' e tidy id distinct scheduled
      supported =
    apply-converges (crontab_contract trigger_bin) iterate iterate' desired file r r'
      (lines, e, tidy) id distinct scheduled supported
