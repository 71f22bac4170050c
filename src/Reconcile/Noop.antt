-- ===== src/Reconcile/Noop.antt =====
-- When a plan is a no-op, and the convergence of `Apply` (D-027).
use cronix.Prelude.{
  List, In, ◌≡◌, Option, All, true, false, ◌∷◌, ◌++◌, arith, inl, [], inr, Bool-cases, ◌∙◌, refl,
  ap, ◌≢◌, All-append, sym,
}
use cronix.Backends.{ManagedEntry, Backend}
use cronix.Reconcile.{
  hashes_equal, compute_desired_hashes, skip, Op, Plan, AppJob, CurrentJob, Groups, is_action,
  job_op, job_ops, is_desired, delete_ops, group_onto, find_group, plan_of, apply, is_noop,
  all_skip, planned, compute,
}
use cronix.Reconcile.Grouping.{marks_of, absorb, find_group-marks_of, Matches, absorb-nil}
use cronix.Reconcile.Effect.{Contract, Supports, apply-effect}
use cronix.Reconcile.Converge.{
  plan_ops, Ranges, DistinctNames, job_key, final_marks-desired, final_marks-dropped,
  Matches-own_marks, find_group-In, All-In,
}
use cronix.Manifest.{NormalizedJob, NormalizedManifest}
use mathlib.Core.Option.{none, some}
use cronix.Prelude.Text.{Text, equal_iff, equal}
use cronix.Manifest.Validate.{match_id}

all_skip-append :
    (xs ys : List Op) → all_skip xs ≡ true → all_skip ys ≡ true → all_skip (xs ++ ys) ≡ true
unfolding all_skip
all_skip-append [] ys h k = k
all_skip-append (x ∷ xs) ys h k = ground (arith, all_skip-append xs ys)

job_op-skip :
    (app : Text) (j : NormalizedJob) (o : Option CurrentJob)
    → Matches j o
    → is_action skip (job_op app j o).action ≡ true
unfolding job_op
job_op-skip app j none h = absurd h
job_op-skip app j (some cj) h = ground arith

all_skip-job_ops :
    (app : Text) (gs : Groups) (jobs : List NormalizedJob)
    → ((j : NormalizedJob) → In j jobs → Matches j (find_group (job_key app j) gs))
    → all_skip (job_ops app gs jobs) ≡ true
unfolding all_skip job_ops
all_skip-job_ops app gs [] h = refl
all_skip-job_ops app gs (j ∷ js) h =
    rw (job_op-skip app j (find_group (job_key app j) gs) (h j (inl refl)))
      (all_skip-job_ops app gs js (λ i m. h i (inr m)))

delete_ops-nil :
    (desired : NormalizedManifest) (gs : Groups)
    → ((k : AppJob) (cj : CurrentJob)
        → In (k, cj) gs
        → k.app ≡ desired.app
        → is_desired desired.app desired.jobs k ≡ true)
    → delete_ops desired gs ≡ []
unfolding delete_ops
delete_ops-nil desired [] h = refl
delete_ops-nil desired ((k, cj) ∷ gs) h =
    let rest = delete_ops-nil desired gs (λ j x m. h j x (inr m)) in
    ground (arith, h k cj (inl refl), equal_iff k.app desired.app, rest)

-- A plan is a no-op if every desired job matches its group and every installed job of the app is
-- desired.
plan_ops-noop :
    (iterate : Groups → Groups) (desired : NormalizedManifest) (current : List ManagedEntry)
    → Ranges iterate
    → ((j : NormalizedJob)
        → In j desired.jobs
        → Matches j (absorb none (marks_of (job_key desired.app j) current)))
    → ((k : AppJob)
        → k.app ≡ desired.app
        → is_desired desired.app desired.jobs k ≡ false
        → marks_of k current ≡ [])
    → all_skip (plan_ops iterate desired current) ≡ true
plan_ops-noop iterate desired current ranges matching gone =
    all_skip-append (job_ops desired.app (group_onto [] current) desired.jobs) _
      (all_skip-job_ops desired.app (group_onto [] current) desired.jobs
        (λ j m. rw find_group-marks_of (matching j m)))
      (rw (delete_ops-nil desired (iterate (group_onto [] current)) all_desired)
        (unfold all_skip in refl))
  where
    all_desired :
        (k : AppJob) (cj : CurrentJob)
        → In (k, cj) (iterate (group_onto [] current))
        → k.app ≡ desired.app
        → is_desired desired.app desired.jobs k ≡ true
    all_desired k cj m e = elim (Bool-cases (is_desired desired.app desired.jobs k)) [
      | inl wanted ↦ wanted
      | inr unwanted ↦ absurd (
          find_group-In k cj (group_onto [] current) ((ranges (group_onto [] current) (k, cj)).0 m)
            (find_group-marks_of k current ∙ (ap (absorb none) (gone k e unwanted) ∙ absorb-nil)))
    ]

module _ {S : Type 0} {backend : Backend S} (c : Contract backend) where
  job_op-Supports :
      (app : Text) (j : NormalizedJob) (o : Option CurrentJob)
      → c.Supported app j
      → Supports c (job_op app j o).action (job_op app j o)
  unfolding job_op
  job_op-Supports app j none h = h
  job_op-Supports app j (some cj) h =
      elim (Bool-cases (hashes_equal cj.hashes (compute_desired_hashes j))) [
        | inl same ↦ rw same tt
        | inr other ↦ rw other h
      ]

  job_ops-Supports :
      (app : Text) (gs : Groups) (jobs : List NormalizedJob)
      → All (c.Supported app) jobs
      → All (λ op. Supports c op.action op) (job_ops app gs jobs)
  unfolding job_ops
  job_ops-Supports app gs [] h = tt
  job_ops-Supports app gs (j ∷ js) h =
      (job_op-Supports app j (find_group (job_key app j) gs) h.0, job_ops-Supports app gs js h.1)

  delete_ops-Supports :
      (desired : NormalizedManifest) (gs : Groups)
      → match_id desired.app ≡ true
      → All (λ op. Supports c op.action op) (delete_ops desired gs)
  unfolding delete_ops
  delete_ops-Supports desired [] h = tt
  delete_ops-Supports desired ((k, cj) ∷ gs) h =
      let rest = delete_ops-Supports desired gs h in
      elim (Bool-cases (is_desired desired.app desired.jobs k)) [
        | inl wanted ↦ rw wanted rest
        | inr unwanted ↦ elim (Bool-cases (equal k.app desired.app)) [
          | inl own ↦ rw (unwanted, own) (rw ((equal_iff k.app desired.app).0 own) h, rest)
          | inr foreign ↦ rw (unwanted, foreign) rest
        ]
      ]

  -- On a backend that keeps its contract, from a good state, with a well-formed app id, jobs of
  -- distinct names, each with a schedule and supported by the backend: `Compute` gives a plan,
  -- `Apply` executes it without an error, and `Compute` on the state that it leaves gives a plan
  -- that is a no-op, in whatever orders Go ranges over the maps.
  pub apply-converges :
      (iterate iterate' : Groups → Groups) (desired : NormalizedManifest) (s : S)
      → Ranges iterate
      → Ranges iterate'
      → c.Good s
      → match_id desired.app ≡ true
      → DistinctNames desired.jobs
      → All (λ j. j.schedules ≢ []) desired.jobs
      → All (c.Supported desired.app) desired.jobs
      → (plan : Plan) × (compute iterate desired backend s ≡ planned plan)
        × ((apply backend plan s).2 ≡ none)
        × (plan' : Plan) × (compute iterate' desired backend (apply backend plan s).0
            ≡ planned plan')
        × (is_noop plan' ≡ true)
  unfolding compute plan_of is_noop
  apply-converges iterate iterate' desired s ranges ranges' good id distinct scheduled supported =
      let plan = plan_of iterate backend.name desired (c.view s) in
      let supports =
        All-append (λ op. Supports c op.action op)
          (job_ops desired.app (group_onto [] (c.view s)) desired.jobs) _
          (job_ops-Supports desired.app (group_onto [] (c.view s)) desired.jobs supported)
          (delete_ops-Supports desired (iterate (group_onto [] (c.view s))) id) in
      let (fine, (good', marks)) = apply-effect c plan s good supports in
      let after = c.view (apply backend plan s).0 in
      (
        plan,
        rw (c.list_view s good, compute),
        fine,
        plan_of iterate' backend.name desired after,
        rw (c.list_view (apply backend plan s).0 good', compute),
        plan_ops-noop iterate' desired after ranges'
            (λ j m.
              rw
                (
                  marks (job_key desired.app j),
                  final_marks-desired iterate desired (c.view s) j
                      (marks_of (job_key desired.app j) (c.view s)) distinct m,
                )
                (Matches-own_marks desired.app j (marks_of (job_key desired.app j) (c.view s))
                  (All-In _ desired.jobs j scheduled m) _
                  (sym (find_group-marks_of (job_key desired.app j) (c.view s)))))
            (λ k e unwanted.
              marks k ∙ final_marks-dropped iterate desired (c.view s) k ranges unwanted e),
      )
