-- ===== src/Tests/Crontabs.antt =====
-- A crontab that is written and read.
use cronix.Manifest.Canonical.{canonicalize}
use cronix.Policy.{hash}
use cronix.Crontab.Cron.{translate}
use cronix.Prelude.Text.Decimal.{decimal}
use cronix.Manifest.Validate.{match_id}
use cronix.Prelude.{refl, some, [], ◌∷◌, List, ◌≡◌, arith, none, true, ◌++◌, false}
use cronix.Prelude.Text.{Text, codes, equal, trim_space, cut_prefix, span, join, split}
use cronix.Crontab.Restore.{Unowned, strip_owned_for-render}
use cronix.Crontab.{
  owned_by, strip_owned_for, is_owner_line, crontab, render, write_lines, schedule_line, read_file,
  File,
}
use cronix.Crontab.Owner.{group, finish_owner, match_owner, owner_line}
use cronix.Crontab.OwnerLine.{match_owner-owner_line}
use cronix.Crontab.Tidy.{IsTidy, Supported}
use cronix.Crontab.Blocks.{Spaced}
use cronix.Crontab.Contract.{crontab-converges}
use cronix.Reconcile.{Plan, compute, planned, apply, is_noop}
use cronix.Tests.Samples.{sample_job, sample_manifest}
use cronix.Crontab.Adopt.Inserts.{IsMarked, adopt-IsMarked}
use cronix.Crontab.Adopt.{adopt}

abbrev file_lines : List Text
file_lines = codes "MAILTO=root" ∷ codes "0 * * * * /bin/true" ∷ []

match_owner-owner_line_example :
    match_owner (owner_line (codes "billing") (codes "report") (codes "0af9") 3)
    ≡ some (record {
      app = codes "billing";
      job = codes "report";
      hash = codes "0af9";
      idx = codes "3";
    })
unfolding match_id decimal
match_owner-owner_line_example =
    match_owner-owner_line (codes "billing") (codes "report") (codes "0af9") 3 refl refl refl refl

-- A crontab with a block of a job that the manifest does not name.
abbrev installed_lines : List Text
installed_lines =
    codes "MAILTO=root"
    ∷ codes "0 1 * * * /usr/bin/cronix trigger billing.old"
    ∷ codes "# cronix:owned app=billing job=old hash=00ff idx=0"
    ∷ []

installed-IsTidy : IsTidy installed_lines
unfolding Spaced is_owner_line match_owner group cut_prefix span match_id finish_owner
installed-IsTidy = (
  ((refl, refl, ground arith), ((refl, refl, ground arith), ((refl, refl, ground arith), tt))),
  ((λ e. cc), ((λ e. refl), ((λ e. refl), tt))),
)

sample-Supported : Supported (codes "/bin/cronix") (codes "billing") sample_job
unfolding render match_id translate equal trim_space is_owner_line group cut_prefix schedule_line
    owner_line hash canonicalize join decimal
sample-Supported = (
  refl,
  refl,
  ((codes "0 * * * *", refl, refl), tt),
  ((refl, refl, ground arith), ((refl, refl, ground arith), tt)),
  ground arith,
)

crontab-converges_example :
    (plan : Plan) × (compute
        (λ gs. gs)
        sample_manifest
        (crontab (codes "/bin/cronix"))
        (some (write_lines installed_lines))
      ≡ planned plan)
    × ((apply (crontab (codes "/bin/cronix")) plan (some (write_lines installed_lines))).2 ≡ none)
    × (plan' : Plan) × (compute
          (λ gs. gs)
          sample_manifest
          (crontab (codes "/bin/cronix"))
          (apply (crontab (codes "/bin/cronix")) plan (some (write_lines installed_lines))).0
        ≡ planned plan')
    × (is_noop plan' ≡ true)
unfolding read_file split write_lines match_id
crontab-converges_example =
    crontab-converges (codes "/bin/cronix") (λ gs. gs) (λ gs. gs) sample_manifest
      (some (write_lines installed_lines)) installed_lines (λ gs x. ground arith)
      (λ gs x. ground arith) refl installed-IsTidy refl (tt, tt) ((λ e. cc), tt)
      (sample-Supported, tt)

foreign-IsTidy : IsTidy file_lines
unfolding Spaced is_owner_line match_owner group cut_prefix span match_id finish_owner
foreign-IsTidy =
    (((refl, refl, ground arith), ((refl, refl, ground arith), tt)), ((λ e. cc), ((λ e. refl), tt)))

foreign-Unowned : Unowned (codes "billing") (codes "report") file_lines
unfolding owned_by match_owner group cut_prefix
foreign-Unowned = (refl, (refl, tt))

strip_owned_for-render_example :
    strip_owned_for
      (file_lines ++ render (codes "billing") (codes "/bin/cronix") sample_job)
      (codes "billing")
      (codes "report")
    ≡ file_lines
strip_owned_for-render_example =
    strip_owned_for-render (codes "/bin/cronix") (codes "billing") sample_job file_lines
      sample-Supported foreign-IsTidy foreign-Unowned

-- The line of a job that is not managed yet, among others.
abbrev unmanaged_file : File
unmanaged_file = some (
    write_lines (
      codes "# jobs"
      ∷ schedule_line (codes "0 * * * *") (codes "/bin/cronix") (codes "billing") (codes "report")
      ∷ []))

adopt-IsMarked_example :
    IsMarked
      (codes "billing")
      sample_job
      false
      unmanaged_file
      (adopt (codes "/bin/cronix") (codes "billing") sample_job false unmanaged_file).0
adopt-IsMarked_example =
    adopt-IsMarked (codes "/bin/cronix") (codes "billing") sample_job false unmanaged_file
