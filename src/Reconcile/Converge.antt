-- ===== src/Reconcile/Converge.antt =====
-- `Apply` of a computed plan converges: a plan computed afterwards is a no-op (D-027).
mod Passes
pub use Passes.{All-In, DistinctNames, job_key}
use cronix.Prelude.{
  ℕ, List, [], ◌≢◌, ◌++◌, Option, ◌≡◌, arith, In, false, Bool-cases, true, inl, inr, ◌∷◌, ◌∙◌, ◌↔◌,
  sym, subst, ap, refl,
}
use cronix.Backends.{ManagedEntry, Listing, listed, Backend}
use cronix.Reconcile.{
  Action, create, update, delete, skip, Op, Plan, AppJob, same_key, CurrentJob, Groups, is_action,
  job_op, job_ops, is_desired, delete_op, delete_ops, group_onto, find_group, plan_of, apply,
  is_noop, all_skip, hashes_equal, compute_desired_hashes,
}
use cronix.Reconcile.Grouping.{
  marks_of, desired_marks, absorb, same_key_iff, find_group-marks_of, Matches,
  Matches-desired_marks, absorb-eq-none,
}
use cronix.Reconcile.Effect.{
  Marks, Contract, target, concerns, op_effect, pass_effect, final_marks, Supports, apply-effect,
}
use cronix.Reconcile.Converge.Passes.{
  pass_effect-append, Untouched, pass_effect-Untouched, pass_effect-delete_nil,
  job_ops-Untouched_delete, IsCall, delete_ops-Untouched_call, job_ops-Untouched_undesired,
  pass_effect-job_ops, delete_ops-Untouched_desired, pass_effect-delete_ops,
}
use mathlib.Core.Option.{none, some}
use cronix.Manifest.{NormalizedJob, NormalizedManifest}
use cronix.Prelude.Text.{Text}

abbrev pub plan_ops : (Groups → Groups) → NormalizedManifest → List ManagedEntry → List Op
plan_ops iterate desired current =
    job_ops desired.app (group_onto [] current) desired.jobs
    ++ delete_ops desired (iterate (group_onto [] current))

module _ (app : Text) (j : NormalizedJob) (ms : Marks) where
  -- The marks that the update and the create of a job's own op leave.
  abbrev pub own_marks : Option CurrentJob → Marks
  own_marks o =
      op_effect (job_key app j) create (job_op app j o)
        (op_effect (job_key app j) update (job_op app j o) ms)

  own_marks-none : own_marks none ≡ ms ++ desired_marks j
  unfolding op_effect job_op
  own_marks-none = ground (arith, same_key_iff (job_key app j) (job_key app j))

  own_marks-skip :
      (cj : CurrentJob)
      → hashes_equal cj.hashes (compute_desired_hashes j) ≡ true
      → own_marks (some cj) ≡ ms
  unfolding op_effect job_op
  own_marks-skip cj e = ground arith

  own_marks-update :
      (cj : CurrentJob)
      → hashes_equal cj.hashes (compute_desired_hashes j) ≡ false
      → own_marks (some cj) ≡ desired_marks j
  unfolding op_effect job_op
  own_marks-update cj e = ground (arith, same_key_iff (job_key app j) (job_key app j))

  -- They make a group that matches the job.
  pub Matches-own_marks :
      j.schedules ≢ []
      → (o : Option CurrentJob) → absorb none ms ≡ o
      → Matches j (absorb none (own_marks o))
  Matches-own_marks some_schedule none e =
      rw (own_marks-none, absorb-eq-none ms e) (Matches-desired_marks j some_schedule)
  Matches-own_marks some_schedule (some cj) e =
      elim (Bool-cases (hashes_equal cj.hashes (compute_desired_hashes j))) [
        | inl same ↦ rw (own_marks-skip cj same, e) same
        | inr other ↦ rw (own_marks-update cj other) (Matches-desired_marks j some_schedule)
      ]

In-is_desired :
    (app : Text) (j : NormalizedJob) (jobs : List NormalizedJob)
    → In j jobs
    → is_desired app jobs (job_key app j) ≡ true
unfolding is_desired
In-is_desired app j [] m = absurd m
In-is_desired app j (i ∷ js) (inl e) =
    subst (λ x. is_desired app (i ∷ js) (job_key app x) ≡ true) e
      (rw ((same_key_iff (job_key app i) (job_key app i)).1 refl))
In-is_desired app j (i ∷ js) (inr m) = ground (arith, In-is_desired app j js m)

module _ (iterate : Groups → Groups) (desired : NormalizedManifest)
    (current : List ManagedEntry) where
  abbrev pub groups : Groups
  groups = group_onto [] current

  abbrev pub ops : List Op
  ops = plan_ops iterate desired current

  call_pass :
      (k : AppJob) (a : Action) (ms : Marks)
      → IsCall a
      → pass_effect k a ops ms ≡ pass_effect k a (job_ops desired.app groups desired.jobs) ms
  call_pass k a ms c =
      pass_effect-append k a (job_ops desired.app groups desired.jobs) _ ms
      ∙ pass_effect-Untouched k a _ _ (delete_ops-Untouched_call k a desired (iterate groups) c)

  delete_pass :
      (k : AppJob) (ms : Marks)
      → pass_effect k delete ops ms ≡ pass_effect k delete (delete_ops desired (iterate groups)) ms
  delete_pass k ms =
      pass_effect-append k delete (job_ops desired.app groups desired.jobs) _ ms
      ∙ ap (pass_effect k delete (delete_ops desired (iterate groups))) (
          pass_effect-Untouched k delete _ ms
            (job_ops-Untouched_delete k desired.app groups desired.jobs))

  pub final_marks-desired :
      (j : NormalizedJob) (ms : Marks)
      → DistinctNames desired.jobs
      → In j desired.jobs
      → final_marks (job_key desired.app j) ops ms
        ≡ own_marks desired.app j ms (find_group (job_key desired.app j) groups)
  final_marks-desired j ms d m =
      let k = job_key desired.app j in
      let kept : pass_effect k delete ops ms ≡ ms =
        delete_pass k ms
        ∙ pass_effect-Untouched k delete _ ms (
            delete_ops-Untouched_desired k desired (iterate groups)
              (In-is_desired desired.app j desired.jobs m)) in
      let call = λ (a : Action) (c : IsCall a) (xs : Marks).
        call_pass k a xs c ∙ pass_effect-job_ops a desired.app groups j desired.jobs xs c d m in
      ap (λ xs. pass_effect k create ops (pass_effect k update ops xs)) kept
      ∙ (ap (pass_effect k create ops) (call update (inr refl) ms) ∙ call create (inl refl) _)

  final_marks-undesired :
      (k : AppJob) (ms : Marks)
      → is_desired desired.app desired.jobs k ≡ false
      → final_marks k ops ms ≡ pass_effect k delete (delete_ops desired (iterate groups)) ms
  final_marks-undesired k ms h =
      let call = λ (a : Action) (c : IsCall a) (xs : Marks).
        call_pass k a xs c
        ∙ pass_effect-Untouched k a _ xs
            (job_ops-Untouched_undesired k a desired.app groups desired.jobs c h) in
      call create (inl refl) _ ∙ (call update (inr refl) _ ∙ delete_pass k ms)

pub find_group-In :
    (k : AppJob) (cj : CurrentJob) (gs : Groups) → In (k, cj) gs → find_group k gs ≢ none
unfolding find_group
find_group-In k cj [] m = absurd m
find_group-In k cj ((j, x) ∷ gs) (inl e) =
    let same : j ≡ k = ap (λ (p : AppJob × CurrentJob). p.0) e in
    rw ((same_key_iff j k).1 same) (λ q. cc)
find_group-In k cj ((j, x) ∷ gs) (inr m) = ground (arith, find_group-In k cj gs m)

In-find_group :
    (k : AppJob) (cj : CurrentJob) (gs : Groups) → find_group k gs ≡ some cj → In (k, cj) gs
unfolding find_group
In-find_group k cj [] e = cc
In-find_group k cj ((j, x) ∷ gs) e = elim (Bool-cases (same_key j k)) [
  | inl same ↦ inl (cc ((same_key_iff j k).0 same, rw same at e))
  | inr other ↦ inr (In-find_group k cj gs (rw other at e))
]

-- Go ranges over every entry of a map once, in an order of its own.
abbrev pub Ranges : (Groups → Groups) → Type 0
Ranges iterate = (gs : Groups) (x : AppJob × CurrentJob) → In x (iterate gs) ↔ In x gs

-- Of a job of the app that is not desired, nothing is left.
pub final_marks-dropped :
    (iterate : Groups → Groups) (desired : NormalizedManifest) (current : List ManagedEntry)
    (k : AppJob)
    → Ranges iterate
    → is_desired desired.app desired.jobs k ≡ false
    → k.app ≡ desired.app
    → final_marks k (plan_ops iterate desired current) (marks_of k current) ≡ []
final_marks-dropped iterate desired current k ranges h e =
    final_marks-undesired iterate desired current k (marks_of k current) h
    ∙ dropped (find_group k (group_onto [] current)) refl
  where
    dropped :
        (o : Option CurrentJob)
        → find_group k (group_onto [] current) ≡ o
        → pass_effect k delete
            (delete_ops desired (iterate (group_onto [] current)))
            (marks_of k current)
          ≡ []
    dropped none f =
        let no_marks =
          absorb-eq-none (marks_of k current) (sym (find_group-marks_of k current) ∙ f) in
        rw no_marks
          (pass_effect-delete_nil k (delete_ops desired (iterate (group_onto [] current))))
    dropped (some cj) f =
        pass_effect-delete_ops k desired cj (iterate (group_onto [] current)) _ h e
          ((ranges (group_onto [] current) (k, cj)).1 (In-find_group k cj _ f))
