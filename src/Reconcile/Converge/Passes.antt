-- ===== src/Reconcile/Converge/Passes.antt =====
-- What the passes over the ops of a plan do to the marks of one job.
use cronix.Prelude.{
  List, ◌≡◌, ◌++◌, All, ◌∷◌, [], ◌⊎◌, false, arith, Option, refl, some, Bool-cases, ◌≢◌, In, true,
  inl, sym, inr, subst, ap, ◌∙◌,
}
use cronix.Reconcile.{
  Action, create, update, delete, Op, AppJob, same_key, CurrentJob, Groups, job_op, job_ops,
  is_desired, delete_op, delete_ops, find_group,
}
use cronix.Reconcile.Grouping.{same_key_iff}
use cronix.Reconcile.Effect.{Marks, concerns, op_effect, pass_effect}
use mathlib.Core.Option.{none, some}
use cronix.Manifest.{NormalizedJob, NormalizedManifest}
use cronix.Prelude.Text.{Text, equal_iff}

pub pass_effect-append :
    (k : AppJob) (a : Action) (xs ys : List Op) (ms : Marks)
    → pass_effect k a (xs ++ ys) ms ≡ pass_effect k a ys (pass_effect k a xs ms)
unfolding pass_effect
pass_effect-append k a [] ys ms = refl
pass_effect-append k a (x ∷ xs) ys ms = pass_effect-append k a xs ys (op_effect k a x ms)

abbrev pub Untouched : AppJob → Action → List Op → Type 0
Untouched k a = All (λ op. concerns k a op ≡ false)

pub pass_effect-Untouched :
    (k : AppJob) (a : Action) (ops : List Op) (ms : Marks)
    → Untouched k a ops
    → pass_effect k a ops ms ≡ ms
unfolding pass_effect op_effect
pass_effect-Untouched k a [] ms h = refl
pass_effect-Untouched k a (x ∷ xs) ms h = rw h.0 (pass_effect-Untouched k a xs ms h.1)

op_effect-untouched :
    (k : AppJob) (a : Action) (op : Op) (ms : Marks)
    → concerns k a op ≡ false
    → op_effect k a op ms ≡ ms
unfolding op_effect
op_effect-untouched k a op ms h = rw h

pub pass_effect-delete_nil : (k : AppJob) (ops : List Op) → pass_effect k delete ops [] ≡ []
unfolding pass_effect op_effect
pass_effect-delete_nil k [] = refl
pass_effect-delete_nil k (x ∷ xs) = ground (arith, pass_effect-delete_nil k xs)

job_op-untouched_delete :
    (k : AppJob) (app : Text) (j : NormalizedJob) (o : Option CurrentJob)
    → concerns k delete (job_op app j o) ≡ false
unfolding job_op
job_op-untouched_delete k app j none = refl
job_op-untouched_delete k app j (some cj) = ground arith

pub job_ops-Untouched_delete :
    (k : AppJob) (app : Text) (groups : Groups) (jobs : List NormalizedJob)
    → Untouched k delete (job_ops app groups jobs)
unfolding job_ops
job_ops-Untouched_delete k app groups [] = tt
job_ops-Untouched_delete k app groups (j ∷ js) = (
  job_op-untouched_delete k app j (find_group (record { app = app; job = j.name }) groups),
  job_ops-Untouched_delete k app groups js,
)

abbrev pub IsCall : Action → Type 0
IsCall a = (a ≡ create) ⊎ (a ≡ update)

pub delete_ops-Untouched_call :
    (k : AppJob) (a : Action) (desired : NormalizedManifest) (groups : Groups)
    → IsCall a
    → Untouched k a (delete_ops desired groups)
unfolding delete_ops
delete_ops-Untouched_call k a desired [] h = tt
delete_ops-Untouched_call k a desired ((key, cj) ∷ groups) h =
    ground (arith, delete_ops-Untouched_call k a desired groups h)

-- The op of a job does not touch a job of another key.
job_op-untouched :
    (k : AppJob) (a : Action) (app : Text) (j : NormalizedJob) (o : Option CurrentJob)
    → IsCall a
    → same_key (record { app = app; job = j.name }) k ≡ false
    → concerns k a (job_op app j o) ≡ false
unfolding job_op
job_op-untouched k a app j none c h = ground arith
job_op-untouched k a app j (some cj) c h = ground arith

-- Neither do the ops of all jobs, where the key is not desired.
pub job_ops-Untouched_undesired :
    (k : AppJob) (a : Action) (app : Text) (groups : Groups) (jobs : List NormalizedJob)
    → IsCall a
    → is_desired app jobs k ≡ false
    → Untouched k a (job_ops app groups jobs)
unfolding job_ops is_desired
job_ops-Untouched_undesired k a app groups [] c h = tt
job_ops-Untouched_undesired k a app groups (j ∷ js) c h =
    elim (Bool-cases (same_key (record { app = app; job = j.name }) k)) [
      | inl same ↦ cc (rw same at h)
      | inr other ↦ (
        job_op-untouched k a app j _ c other,
        job_ops-Untouched_undesired k a app groups js c (rw other at h),
      )
    ]

abbrev pub DistinctNames : List NormalizedJob → Type 0
DistinctNames [] = Unit
DistinctNames (j ∷ js) = All (λ k. j.name ≢ k.name) js × DistinctNames js

abbrev pub job_key : Text → NormalizedJob → AppJob
job_key app j = record { app = app; job = j.name }

pub All-In : {A : Type 0} (P : A → Type 0) (xs : List A) (a : A) → All P xs → In a xs → P a
All-In P [] a h m = absurd m
All-In P (x ∷ xs) a h (inl e) = subst P e h.0
All-In P (x ∷ xs) a h (inr m) = All-In P xs a h.1 m

names_differ :
    (app : Text) (i j : NormalizedJob)
    → i.name ≢ j.name
    → same_key (job_key app i) (job_key app j) ≡ false
names_differ app i j h = ground (arith, equal_iff i.name j.name)

others-Untouched :
    (a : Action) (app : Text) (groups : Groups) (j : NormalizedJob) (js : List NormalizedJob)
    → IsCall a
    → All (λ k. j.name ≢ k.name) js
    → Untouched (job_key app j) a (job_ops app groups js)
unfolding job_ops
others-Untouched a app groups j [] c h = tt
others-Untouched a app groups j (i ∷ js) c h = (
  job_op-untouched (job_key app j) a app i _ c (names_differ app i j (λ e. h.0 (sym e))),
  others-Untouched a app groups j js c h.1,
)

-- Of the ops of all jobs, only the op of the job itself acts on a job.
pub pass_effect-job_ops :
    (a : Action) (app : Text) (groups : Groups) (j : NormalizedJob) (jobs : List NormalizedJob)
    (ms : Marks)
    → IsCall a
    → DistinctNames jobs
    → In j jobs
    → pass_effect (job_key app j) a (job_ops app groups jobs) ms
      ≡ op_effect (job_key app j) a (job_op app j (find_group (job_key app j) groups)) ms
unfolding job_ops pass_effect
pass_effect-job_ops a app groups j [] ms c d m = absurd m
pass_effect-job_ops a app groups j (i ∷ js) ms c d (inl e) =
    subst
      (λ x.
        pass_effect (job_key app x) a (job_ops app groups (i ∷ js)) ms
        ≡ op_effect (job_key app x) a (job_op app x (find_group (job_key app x) groups)) ms)
      e
      (pass_effect-Untouched _ a (job_ops app groups js) _
        (others-Untouched a app groups i js c d.0))
pass_effect-job_ops a app groups j (i ∷ js) ms c d (inr m) =
    ap (pass_effect (job_key app j) a (job_ops app groups js)) (
      op_effect-untouched (job_key app j) a _ ms
        (job_op-untouched (job_key app j) a app i _ c (names_differ app i j (All-In _ js j d.0 m))))
    ∙ pass_effect-job_ops a app groups j js ms c d.1 m

-- No delete touches a desired job.
pub delete_ops-Untouched_desired :
    (k : AppJob) (desired : NormalizedManifest) (groups : Groups)
    → is_desired desired.app desired.jobs k ≡ true
    → Untouched k delete (delete_ops desired groups)
unfolding delete_ops
delete_ops-Untouched_desired k desired [] h = tt
delete_ops-Untouched_desired k desired ((key, cj) ∷ groups) h =
    ground (arith, delete_ops-Untouched_desired k desired groups h, same_key_iff key k)

module _ (k : AppJob) (desired : NormalizedManifest) where
  delete_head :
      (cj : CurrentJob) (groups : Groups) (ms : Marks)
      → is_desired desired.app desired.jobs k ≡ false
      → k.app ≡ desired.app
      → pass_effect k delete (delete_ops desired ((k, cj) ∷ groups)) ms ≡ []
  unfolding delete_ops pass_effect op_effect
  delete_head cj groups ms h e = ground (
    arith,
    pass_effect-delete_nil k (delete_ops desired groups),
    equal_iff k.app desired.app,
    same_key_iff k k,
  )

  delete_ops_cases :
      (key : AppJob) (cj : CurrentJob) (groups : Groups)
      → (delete_ops desired ((key, cj) ∷ groups) ≡ delete_ops desired groups)
        ⊎ (delete_ops desired ((key, cj) ∷ groups) ≡ delete_op key cj ∷ delete_ops desired groups)
  unfolding delete_ops
  delete_ops_cases key cj groups = ground arith

  -- An installed job of the app that is not desired loses all its marks.
  pub pass_effect-delete_ops :
      (cj : CurrentJob) (groups : Groups) (ms : Marks)
      → is_desired desired.app desired.jobs k ≡ false
      → k.app ≡ desired.app
      → In (k, cj) groups
      → pass_effect k delete (delete_ops desired groups) ms ≡ []
  unfolding pass_effect
  pass_effect-delete_ops cj [] ms h e m = absurd m
  pass_effect-delete_ops cj ((key, cj') ∷ groups) ms h e (inl here) =
      let same : key ≡ k = ap (λ (p : AppJob × CurrentJob). p.0) here in
      rw same (delete_head cj' groups ms h e)
  pass_effect-delete_ops cj ((key, cj') ∷ groups) ms h e (inr m) =
      elim (delete_ops_cases key cj' groups) [
        | inl kept ↦ rw kept (pass_effect-delete_ops cj groups ms h e m)
        | inr dropped ↦
            rw dropped
              (pass_effect-delete_ops cj groups (op_effect k delete (delete_op key cj') ms) h e m)
      ]
