-- ===== src/Tests/Plans.antt =====
-- A run of the reconciler on a backend in memory.
use cronix.Manifest.Validate.{match_id}
use cronix.Prelude.{ℕ, List, [], ◌∷◌, refl, none, some, All, true, ◌≡◌, ◌+◌, arith}
use cronix.Prelude.Text.{codes}
use cronix.Backends.{ManagedEntry, Backend, listed}
use cronix.Reconcile.{
  create, delete, Op, Plan, compute, planned, plan_of, apply, is_noop, run_pass, apply_error,
}
use cronix.Reconcile.Grouping.{marks_of}
use cronix.Reconcile.Effect.{Leaves, final_marks, apply-effect}
use cronix.Reconcile.Noop.{apply-converges}
use cronix.Reconcile.Safety.{IsJustified, plan_of-IsJustified, run_pass-stops, apply-counts}
use cronix.Tests.Memory.{memory, memory_contract}
use cronix.Tests.Samples.{sample_job, sample_manifest}

-- What is left of a job that the manifest does not name, and a job with another hash.
abbrev installed : List ManagedEntry
installed =
    record { app = codes "billing"; job = codes "old"; hash = codes "ab"; index = 0; raw = [] }
    ∷ record { app = codes "billing"; job = codes "report"; hash = codes "cd"; index = 0; raw = [] }
    ∷ []

abbrev old_plan : Plan
old_plan = plan_of (λ gs. gs) (codes "memory") sample_manifest installed

apply-converges_example :
    (plan : Plan) × (compute (λ gs. gs) sample_manifest memory installed ≡ planned plan)
    × ((apply memory plan installed).2 ≡ none)
    × (plan' : Plan) × (compute (λ gs. gs) sample_manifest memory (apply memory plan installed).0
        ≡ planned plan')
    × (is_noop plan' ≡ true)
unfolding match_id
apply-converges_example =
    apply-converges memory_contract (λ gs. gs) (λ gs. gs) sample_manifest installed
      (λ gs x. ground arith) (λ gs x. ground arith) tt refl (tt, tt) ((λ e. cc), tt) (tt, tt)

plan_of-IsJustified_example :
    All
      (IsJustified sample_manifest installed)
      (plan_of (λ gs. gs) (codes "memory") sample_manifest installed).ops
plan_of-IsJustified_example =
    plan_of-IsJustified (λ gs. gs) (codes "memory") sample_manifest installed (λ gs x. ground arith)

abbrev delete_old : Op
delete_old = record {
  action = delete;
  app = codes "billing";
  job_name = codes "old";
  job = sample_job;
  old_hash = codes "ab";
  new_hash = [];
  indices = 0 ∷ [];
}

abbrev create_report : Op
create_report = record {
  action = create;
  app = codes "billing";
  job_name = codes "report";
  job = sample_job;
  old_hash = [];
  new_hash = [];
  indices = 0 ∷ [];
}

abbrev small_plan : Plan
small_plan = record { backend = codes "memory"; ops = delete_old ∷ create_report ∷ [] }

apply-effect_example :
    ((apply memory small_plan installed).2 ≡ none)
    × Leaves memory_contract
        (apply memory small_plan installed).0
        (λ k. final_marks k small_plan.ops (marks_of k installed))
unfolding match_id
apply-effect_example = apply-effect memory_contract small_plan installed tt (refl, (tt, tt))

apply-counts_example :
    ((apply memory small_plan installed).1
      ≡ record { created = 1; updated = 0; deleted = 1; skipped = 0 })
    × ((apply memory small_plan installed).1.created
          + (apply memory small_plan installed).1.updated
          + (apply memory small_plan installed).1.deleted
          + (apply memory small_plan installed).1.skipped
        ≡ 2)
unfolding apply
apply-counts_example = apply-counts memory small_plan installed refl

-- A backend that can delete nothing.
abbrev stuck : Backend ℕ
stuck = record {
  name = codes "stuck";
  list = λ n. listed [];
  create = λ n app job. (n + 1, none);
  update = λ n app job. (n + 1, none);
  delete = λ n app job. (n, some (codes "denied"));
}

run_pass-stops_example :
    run_pass stuck delete (create_report ∷ delete_old ∷ create_report ∷ []) 7 0
    ≡ (7, 0, some (apply_error delete delete_old (codes "denied")))
unfolding run_pass
run_pass-stops_example =
    run_pass-stops stuck delete (create_report ∷ []) delete_old (create_report ∷ []) 7 0
      (codes "denied") refl refl refl
