-- ===== src/Reconcile/Safety.antt =====
-- What a plan may contain, and how `Apply` counts and stops.
use cronix.Prelude.{
  ℕ, List, ◌≡◌, [], Option, All, In, true, ◌+◌, ◌≢◌, Bool-cases, ◌∷◌, All-append, ◌++◌, arith,
  length, false, ◌∙◌, inl, sym, inr, suc, ap, refl,
}
use cronix.Backends.{ManagedEntry, Backend}
use cronix.Reconcile.{
  Action, create, update, delete, skip, Op, Plan, AppJob, CurrentJob, Groups, is_action, job_op,
  job_ops, is_desired, delete_op, delete_ops, group_onto, find_group, plan_of, apply, execute,
  run_pass, apply_error, count_action, hashes_equal, compute_desired_hashes,
}
use cronix.Reconcile.Grouping.{
  marks_of, absorb, find_group-marks_of, absorb-eq-none, absorb-nil, observed, hashes_equal_refl,
}
use cronix.Reconcile.Converge.{Ranges, find_group-In}
use cronix.Manifest.{NormalizedJob, NormalizedManifest}
use mathlib.Core.Option.{none, some}
use cronix.Prelude.Text.{Text, equal, equal_iff}

abbrev pub op_key : Op → AppJob
op_key op = record { app = op.app; job = op.job_name }

-- The hashes that a listing reports for a job, by their indices.
abbrev pub installed_hashes : AppJob → List ManagedEntry → List Text
installed_hashes k current = observed (absorb none (marks_of k current))

-- The op is about a job of the manifest.
abbrev pub IsOfJob : NormalizedManifest → Op → Type 0
IsOfJob desired op = In op.job desired.jobs × (op.job_name ≡ op.job.name)

-- Why an op of each action is in a plan: a job is created if nothing of it is installed, updated
-- if the installed hashes are not the desired ones, skipped if they are, and deleted if it is
-- installed and no job of the manifest has its name.
abbrev pub Reason : NormalizedManifest → List ManagedEntry → Action → Op → Type 0
Reason desired current create op = IsOfJob desired op × (marks_of (op_key op) current ≡ [])
Reason desired current update op =
    IsOfJob desired op
    × (marks_of (op_key op) current ≢ [])
    × (installed_hashes (op_key op) current ≢ compute_desired_hashes op.job)
Reason desired current skip op =
    IsOfJob desired op
    × (marks_of (op_key op) current ≢ [])
    × (installed_hashes (op_key op) current ≡ compute_desired_hashes op.job)
Reason desired current delete op =
    (marks_of (op_key op) current ≢ [])
    × ((j : NormalizedJob) → In j desired.jobs → j.name ≢ op.job_name)

abbrev pub IsJustified : NormalizedManifest → List ManagedEntry → Op → Type 0
IsJustified desired current op = (op.app ≡ desired.app) × Reason desired current op.action op

hashes_equal_sound : (a b : List Text) → hashes_equal a b ≡ true → a ≡ b
unfolding hashes_equal
hashes_equal_sound [] [] h = refl
hashes_equal_sound [] (y ∷ ys) h = cc h
hashes_equal_sound (x ∷ xs) [] h = cc h
hashes_equal_sound (x ∷ xs) (y ∷ ys) h = ground (arith, equal_iff x y, hashes_equal_sound xs ys)

is_desired-names :
    (app : Text) (jobs : List NormalizedJob) (k : AppJob)
    → is_desired app jobs k ≡ false
    → k.app ≡ app
    → (j : NormalizedJob) → In j jobs
    → j.name ≢ k.job
unfolding is_desired
is_desired-names app [] k h same j m n = elim m [ ]
is_desired-names app (x ∷ xs) k h same j (inl e) n =
    let name : x.name ≡ k.job = cc (e, n) in
    ground (arith, equal_iff app k.app, equal_iff x.name k.job)
is_desired-names app (x ∷ xs) k h same j (inr m) n =
    is_desired-names app xs k (ground arith) same j m n

some-marks :
    (k : AppJob) (current : List ManagedEntry)
    → find_group k (group_onto [] current) ≢ none
    → marks_of k current ≢ []
some-marks k current h e = h (find_group-marks_of k current ∙ (ap (absorb none) e ∙ absorb-nil))

some-ne-none : {A : Type 0} {a : A} → some a ≢ none
some-ne-none h = cc

absorbed-marks : (ms : List (Text × ℕ)) (cj : CurrentJob) → absorb none ms ≡ some cj → ms ≢ []
absorbed-marks ms cj e n = some-ne-none (sym e ∙ (ap (absorb none) n ∙ absorb-nil))

differ :
    (j : NormalizedJob) (cj : CurrentJob)
    → hashes_equal cj.hashes (compute_desired_hashes j) ≡ false
    → cj.hashes ≢ compute_desired_hashes j
differ j cj other e =
    let same : hashes_equal cj.hashes (compute_desired_hashes j) ≡ true =
      rw e (hashes_equal_refl (compute_desired_hashes j)) in
    cc (other, same)

job_op-IsJustified :
    (desired : NormalizedManifest) (current : List ManagedEntry) (j : NormalizedJob)
    (o : Option CurrentJob)
    → In j desired.jobs
    → absorb none (marks_of (record { app = desired.app; job = j.name }) current) ≡ o
    → IsJustified desired current (job_op desired.app j o)
unfolding job_op
job_op-IsJustified desired current j none m e = (refl, ((m, refl), absorb-eq-none _ e))
job_op-IsJustified desired current j (some cj) m e =
    let installed = absorbed-marks _ cj e in
    elim (Bool-cases (hashes_equal cj.hashes (compute_desired_hashes j))) [
      | inl same ↦ rw same (
        refl,
        ((m, refl), installed, rw e (hashes_equal_sound cj.hashes (compute_desired_hashes j) same)),
      )
      | inr other ↦ rw other (refl, ((m, refl), installed, rw e (differ j cj other)))
    ]

job_ops-IsJustified :
    (desired : NormalizedManifest) (current : List ManagedEntry) (jobs : List NormalizedJob)
    → ((j : NormalizedJob) → In j jobs → In j desired.jobs)
    → All (IsJustified desired current) (job_ops desired.app (group_onto [] current) jobs)
unfolding job_ops
job_ops-IsJustified desired current [] h = tt
job_ops-IsJustified desired current (j ∷ js) h = (
  job_op-IsJustified desired current j _ (h j (inl refl))
      (sym (find_group-marks_of (record { app = desired.app; job = j.name }) current)),
  job_ops-IsJustified desired current js (λ x m. h x (inr m)),
)

delete_ops-IsJustified :
    (desired : NormalizedManifest) (current : List ManagedEntry) (gs : Groups)
    → ((x : AppJob × CurrentJob) → In x gs → In x (group_onto [] current))
    → All (IsJustified desired current) (delete_ops desired gs)
unfolding delete_ops delete_op
delete_ops-IsJustified desired current [] h = tt
delete_ops-IsJustified desired current ((k, cj) ∷ gs) h =
    let rest = delete_ops-IsJustified desired current gs (λ x m. h x (inr m)) in
    let installed =
      some-marks k current (find_group-In k cj (group_onto [] current) (h (k, cj) (inl refl))) in
    elim (Bool-cases (is_desired desired.app desired.jobs k)) [
      | inl wanted ↦ rw wanted rest
      | inr unwanted ↦ elim (Bool-cases (equal k.app desired.app)) [
        | inl own ↦
            let same : k.app ≡ desired.app = (equal_iff k.app desired.app).0 own in
            rw (unwanted, own)
              ((same, (installed, is_desired-names desired.app desired.jobs k unwanted same)), rest)
        | inr foreign ↦ rw (unwanted, foreign) rest
      ]
    ]

-- Every op of a plan is about the app of the manifest. A create, an update and a skip are about a
-- job of the manifest: one of which nothing is installed, one of which something is installed but
-- not the desired hashes, and one whose installed hashes are the desired ones. A delete is about
-- an installed job whose name no job of the manifest has.
pub plan_of-IsJustified :
    (iterate : Groups → Groups) (name : Text) (desired : NormalizedManifest)
    (current : List ManagedEntry)
    → Ranges iterate
    → All (IsJustified desired current) (plan_of iterate name desired current).ops
unfolding plan_of
plan_of-IsJustified iterate name desired current ranges =
    All-append (IsJustified desired current)
      (job_ops desired.app (group_onto [] current) desired.jobs) _
      (job_ops-IsJustified desired current desired.jobs (λ j m. m))
      (delete_ops-IsJustified desired current (iterate (group_onto [] current))
        (λ x. (ranges (group_onto [] current) x).0))

module _ {S : Type 0} (backend : Backend S) where
  -- A pass stops at the first call that fails: the state is the one that the call left, the calls
  -- before it are counted, and the error names the op.
  pub run_pass-stops :
      (a : Action) (before : List Op) (op : Op) (after : List Op) (s : S) (n : ℕ) (err : Text)
      → is_action a op.action ≡ true
      → (run_pass backend a before s n).2 ≡ none
      → (execute backend a op (run_pass backend a before s n).0).1 ≡ some err
      → run_pass backend a (before ++ op ∷ after) s n ≡ (
        (execute backend a op (run_pass backend a before s n).0).0,
        (run_pass backend a before s n).1,
        some (apply_error a op err),
      )
  unfolding run_pass
  run_pass-stops a [] op after s n err hit ok fails = ground arith
  run_pass-stops a (x ∷ before) op after s n err hit ok fails = ground (
    arith,
    run_pass-stops a before op after s n err,
    run_pass-stops a before op after (execute backend a x s).0 (suc n) err,
  )

  run_pass-count :
      (a : Action) (ops : List Op) (s : S) (n : ℕ)
      → (run_pass backend a ops s n).2 ≡ none
      → (run_pass backend a ops s n).1 ≡ n + count_action a ops
  unfolding run_pass count_action
  run_pass-count a [] s n h = omega arith
  run_pass-count a (op ∷ ops) s n h =
      ground
        (arith, run_pass-count a ops s n, run_pass-count a ops (execute backend a op s).0 (suc n))

  count-sum :
      (ops : List Op)
      → count_action create ops
          + count_action update ops
          + count_action delete ops
          + count_action skip ops
        ≡ length ops
  unfolding count_action
  count-sum [] = omega arith
  count-sum (op ∷ ops) = ground (arith, count-sum ops)

  -- Where `Apply` ends with no error, its result counts the ops of each action, and with the
  -- skipped ones these are all the ops of the plan.
  pub apply-counts :
      (plan : Plan) (s : S)
      → (apply backend plan s).2 ≡ none
      → ((apply backend plan s).1 ≡ record {
        created = count_action create plan.ops;
        updated = count_action update plan.ops;
        deleted = count_action delete plan.ops;
        skipped = count_action skip plan.ops;
      })
        × ((apply backend plan s).1.created
              + (apply backend plan s).1.updated
              + (apply backend plan s).1.deleted
              + (apply backend plan s).1.skipped
            ≡ length plan.ops)
  unfolding apply
  apply-counts plan s h = ground (
    arith,
    run_pass-count delete plan.ops s 0,
    run_pass-count update plan.ops (run_pass backend delete plan.ops s 0).0 0,
    run_pass-count create plan.ops
        (run_pass backend update plan.ops (run_pass backend delete plan.ops s 0).0 0).0 0,
    count-sum plan.ops,
  )
