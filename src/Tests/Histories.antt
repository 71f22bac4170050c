-- ===== src/Tests/Histories.antt =====
-- The records of a run that failed and was retried, and schedules for EventBridge.
use cronix.Prelude.{[], ◌∷◌, List, ◌≡◌, none, false, true, some}
use cronix.Prelude.Int.{pos}
use cronix.Prelude.Text.{codes}
use cronix.History.{ShimEvent, Record, find_run, collect, Instant}
use cronix.History.Runs.{find_run-last}

abbrev sample_event : ShimEvent
sample_event = record {
  time = [];
  msg = codes "trigger: success";
  app = codes "billing";
  job = codes "report";
  run_id = codes "id";
  attempt = pos 2;
}

abbrev sample_records : List Record
sample_records =
    (sample_event, none, codes "failed", false) ∷ (sample_event, none, codes "ok", true) ∷ []

abbrev later_records : List Record
later_records = (sample_event, none, codes "failed", false) ∷ []

find_run-last_example :
    (t : Instant) × (find_run (codes "id") (
        collect (codes "billing") (codes "report") (codes "journald") [] (
          (sample_event, none, codes "failed", false)
          ∷ (sample_event, none, codes "ok", true)
          ∷ later_records))
      ≡ some (record {
        app = codes "billing";
        job = codes "report";
        run_id = codes "id";
        attempt = sample_event.attempt;
        started_at = t;
        finished_at = none;
        status = codes "ok";
        source = codes "journald";
      }))
find_run-last_example =
    find_run-last (codes "billing") (codes "report") (codes "journald")
      ((sample_event, none, codes "failed", false) ∷ []) later_records sample_event none
      (codes "ok") ((λ e. cc), tt)
