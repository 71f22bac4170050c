-- ===== src/Tests/Units.antt =====
-- A unit directory with the timers of two jobs, and the names of schedules.
use cronix.Prelude.Text.Decimal.{decimal}
use cronix.Prelude.{ℕ, refl, some, none, ◌≡◌, ◌∷◌, inl, [], ◌++◌, arith}
use cronix.Prelude.Text.{Text, codes, cut_prefix, equal, trim_space, fields, split, join}
use cronix.Tests.Samples.{sample_job}
use cronix.Systemd.Host.{Machine, Host, delete, name_issue}
use cronix.Systemd.Host.Effects.{Calm, contents_of}
use cronix.Policy.{schedule_name}
use cronix.Systemd.Calendar.{translate_on_calendar}
use cronix.Systemd.Units.{render_units, list_entry}
use cronix.Systemd.Host.Deletes.{timer_name, delete-timers}
use cronix.Policy.Names.{schedule_name-injective}
use cronix.Systemd.UnitLines.{list_entry-render_units}

abbrev calm_machine : Machine
calm_machine = record {
  systemctl = λ args. none;
  mkdir = none;
  write = λ name. none;
  read = λ name. none;
  remove = λ name. none;
}

abbrev calm : Calm calm_machine
calm = record { runs = λ args. refl; makes = refl; writes = λ name. refl; removes = λ name. refl }

abbrev report_host : Host
report_host = record {
  files =
      (timer_name (codes "billing") (codes "audit") 0, codes "audit timer")
      ∷ (timer_name (codes "billing") (codes "report-daily") 0, codes "daily timer")
      ∷ (timer_name (codes "billing") (codes "report") 0, codes "timer")
      ∷ [];
  commands = [];
}

delete-timers_example :
    ((delete calm_machine (codes "billing") (codes "report") report_host).1 ≡ none)
    × (((i : ℕ)
          → contents_of
              (timer_name (codes "billing") (codes "report") i)
              (delete calm_machine (codes "billing") (codes "report") report_host).0.files
            ≡ none)
        × ((job' : Text) (i : ℕ)
            → cut_prefix (job' ++ codes "-") (codes "report" ++ codes "-") ≡ none
            → contents_of
                (timer_name (codes "billing") job' i)
                (delete calm_machine (codes "billing") (codes "report") report_host).0.files
              ≡ contents_of (timer_name (codes "billing") job' i) report_host.files))
unfolding name_issue
delete-timers_example =
    delete-timers calm_machine (codes "billing") (codes "report") report_host calm refl refl

-- The timer of the job "report-daily" is removed with those of "report".
delete_longer_name :
    contents_of
      (timer_name (codes "billing") (codes "report-daily") 0)
      (delete calm_machine (codes "billing") (codes "report") report_host).0.files
    ≡ none
unfolding contents_of delete cut_prefix schedule_name decimal equal
delete_longer_name = refl

-- Jobs of two apps have one schedule name.
schedule_names_meet :
    schedule_name (codes "a-b") (codes "c") 0 ≡ schedule_name (codes "a") (codes "b-c") 0
unfolding schedule_name
schedule_names_meet = refl

-- A range of named days is dropped.
named_days_dropped : translate_on_calendar (codes "0 9 * * MON-FRI") ≡ some (codes "*-*-* 9:0:00")
unfolding translate_on_calendar equal trim_space cut_prefix fields split
named_days_dropped = refl

numbered_days_kept :
    translate_on_calendar (codes "0 9 * * 1-5") ≡ some (codes "Mon..Fri *-*-* 9:0:00")
unfolding translate_on_calendar equal trim_space cut_prefix fields split join
numbered_days_kept = refl

schedule_name-injective_example :
    (codes "billing" ≡ codes "billing") × ((codes "report" ≡ codes "report") × (◌≡◌ {A = ℕ} 0 0))
schedule_name-injective_example =
    schedule_name-injective (codes "billing") (codes "billing") (codes "report") (codes "report") 0
      0 (inl refl) refl

list_entry-render_units_example :
    (timer : Text) × ((service : Text) × ((render_units
            (codes "/usr/bin/cronix")
            (codes "billing")
            sample_job
            0
            (codes "0a1b")
          ≡ some (timer, service))
        × (list_entry (codes "/u/t.timer") timer
            ≡ some (record {
              app = codes "billing";
              job = codes "report";
              hash = codes "0a1b";
              index = 0;
              raw = codes "/u/t.timer";
            }))))
unfolding translate_on_calendar equal trim_space
list_entry-render_units_example =
    list_entry-render_units (codes "/usr/bin/cronix") (codes "/u/t.timer") (codes "billing")
      sample_job 0 (codes "0a1b") (codes "@hourly") (codes "hourly") refl refl refl refl refl refl
      (omega arith)
