-- ===== src/Reconcile/Effect.antt =====
-- What a run of `Apply` does to the marks of each job, over any backend that keeps the contract of
-- go/internal/backends/backend.go.
use cronix.Prelude.{
  ℕ, List, ◌++◌, Bool, ◌≡◌, none, [], ◌&&◌, ◌∷◌, true, All, arith, if◌then◌else◌, false, subst,
  Bool-cases, sym, inl, suc, ◌∙◌, ap, inr, refl,
}
use cronix.Backends.{ManagedEntry, listed, Backend}
use cronix.Reconcile.{
  Action, create, update, delete, skip, Op, Plan, AppJob, same_key, is_action, execute, run_pass,
  apply,
}
use cronix.Reconcile.Grouping.{marks_of, desired_marks}
use cronix.Manifest.{NormalizedJob}
use cronix.Prelude.Text.{Text}
use cronix.Manifest.Validate.{match_id}

abbrev pub Marks : Type 0
Marks = List (Text × ℕ)

-- The contract: in the states of `Good` the listing is `view`, and the operations succeed on the
-- jobs that the backend supports, stay in `Good` and change the marks of their own job only.
pub record Contract {S : Type 0} (backend : Backend S) : Type 1 where
  pub Good : S → Type 0
  pub Supported : Text → NormalizedJob → Type 0
  pub view : S → List ManagedEntry
  pub list_view : (s : S) → Good s → backend.list s ≡ listed (view s)
  pub create_marks :
      (s : S) (app : Text) (job : NormalizedJob)
      → Good s
      → Supported app job
      → ((backend.create s app job).1 ≡ none)
        × Good (backend.create s app job).0
        × ((k : AppJob)
            → marks_of k (view (backend.create s app job).0) ≡ (
                if same_key (record { app = app; job = job.name }) k
                then marks_of k (view s) ++ desired_marks job
                else marks_of k (view s)))
  pub update_marks :
      (s : S) (app : Text) (job : NormalizedJob)
      → Good s
      → Supported app job
      → ((backend.update s app job).1 ≡ none)
        × Good (backend.update s app job).0
        × ((k : AppJob)
            → marks_of k (view (backend.update s app job).0) ≡ (
                if same_key (record { app = app; job = job.name }) k
                then desired_marks job
                else marks_of k (view s)))
  pub delete_marks :
      (s : S) (app job : Text)
      → Good s
      → match_id app ≡ true
      → ((backend.delete s app job).1 ≡ none)
        × Good (backend.delete s app job).0
        × ((k : AppJob)
            → marks_of k (view (backend.delete s app job).0)
              ≡ (if same_key (record { app = app; job = job }) k then [] else marks_of k (view s)))

-- The job that a call is about.
abbrev pub target : Action → Op → AppJob
target delete op = record { app = op.app; job = op.job_name }
target _ op = record { app = op.app; job = op.job.name }

abbrev pub marks_after : Action → Op → Marks → Marks
marks_after create op ms = ms ++ desired_marks op.job
marks_after update op ms = desired_marks op.job
marks_after delete op ms = []
marks_after skip op ms = ms

abbrev pub concerns : AppJob → Action → Op → Bool
concerns k action op = is_action action op.action && same_key (target action op) k

unfoldable pub op_effect : AppJob → Action → Op → Marks → Marks
op_effect k action op ms = if concerns k action op then marks_after action op ms else ms

unfoldable pub pass_effect : AppJob → Action → List Op → Marks → Marks
pass_effect k action [] ms = ms
pass_effect k action (op ∷ ops) ms = pass_effect k action ops (op_effect k action op ms)

abbrev pub final_marks : AppJob → List Op → Marks → Marks
final_marks k ops ms =
    pass_effect k create ops (pass_effect k update ops (pass_effect k delete ops ms))

is_action-eq : (a b : Action) → is_action a b ≡ true → a ≡ b
is_action-eq a b h = ground arith

op_effect_miss :
    (k : AppJob) (action : Action) (op : Op) (ms : Marks)
    → is_action action op.action ≡ false
    → ms ≡ op_effect k action op ms
unfolding op_effect
op_effect_miss k action op ms e = ground arith

module _ {S : Type 0} {backend : Backend S} (c : Contract backend) where
  abbrev pub Supports : Action → Op → Type 0
  Supports create op = c.Supported op.app op.job
  Supports update op = c.Supported op.app op.job
  Supports delete op = match_id op.app ≡ true
  Supports skip op = Unit

  -- What a run leaves: no error, a good state, and these marks of every job.
  abbrev pub Leaves : S → (AppJob → Marks) → Type 0
  Leaves s f = c.Good s × ((k : AppJob) → marks_of k (c.view s) ≡ f k)

  Supports-is_action :
      (action : Action) (op : Op)
      → is_action action op.action ≡ true
      → Supports op.action op
      → Supports action op
  Supports-is_action action op e h =
      subst (λ a. Supports a op) (sym (is_action-eq action op.action e)) h

  execute-effect :
      (action : Action) (op : Op) (s : S)
      → c.Good s
      → Supports action op
      → is_action action op.action ≡ true
      → ((execute backend action op s).1 ≡ none)
        × Leaves
            (execute backend action op s).0
            (λ k. op_effect k action op (marks_of k (c.view s)))
  unfolding execute op_effect
  execute-effect create op s g h e =
      let (a, b, m) = c.create_marks s op.app op.job g h in (a, (b, λ k. rw e (m k)))
  execute-effect update op s g h e =
      let (a, b, m) = c.update_marks s op.app op.job g h in (a, (b, λ k. rw e (m k)))
  execute-effect delete op s g h e =
      let (a, b, m) = c.delete_marks s op.app op.job_name g h in (a, (b, λ k. rw e (m k)))
  execute-effect skip op s g h e = (refl, (g, λ k. ground arith))

  run_pass-effect :
      (action : Action) (ops : List Op) (s : S) (n : ℕ)
      → c.Good s
      → All (λ op. Supports op.action op) ops
      → ((run_pass backend action ops s n).2 ≡ none)
        × Leaves
            (run_pass backend action ops s n).0
            (λ k. pass_effect k action ops (marks_of k (c.view s)))
  unfolding run_pass pass_effect
  run_pass-effect action [] s n g h = (refl, (g, λ k. refl))
  run_pass-effect action (op ∷ ops) s n g h = elim (Bool-cases (is_action action op.action)) [
    | inl hit ↦
        let (fine, after) =
          execute-effect action op s g (Supports-is_action action op hit h.0) hit in
        let next = (execute backend action op s).0 in
        let (ended, (g', m')) = run_pass-effect action ops next (suc n) after.0 h.1 in
        rw (hit, fine, run_pass)
          (ended, (g', λ k. m' k ∙ ap (pass_effect k action ops) (after.1 k)))
    | inr miss ↦
        let (ended, (g', m')) = run_pass-effect action ops s n g h.1 in
        rw (miss, run_pass)
          (
            ended,
            (g', λ k. m' k ∙ ap (pass_effect k action ops) (op_effect_miss k action op _ miss)),
          )
  ]

  -- The passes of `Apply` succeed and leave in each job the marks that its ops make in the order
  -- deletes, updates, creates.
  pub apply-effect :
      (plan : Plan) (s : S)
      → c.Good s
      → All (λ op. Supports op.action op) plan.ops
      → ((apply backend plan s).2 ≡ none)
        × Leaves (apply backend plan s).0 (λ k. final_marks k plan.ops (marks_of k (c.view s)))
  unfolding apply
  apply-effect plan s g h =
      let (e₁, (g₁, m₁)) = run_pass-effect delete plan.ops s 0 g h in
      let (e₂, (g₂, m₂)) =
        run_pass-effect update plan.ops (run_pass backend delete plan.ops s 0).0 0 g₁ h in
      let (e₃, (g₃, m₃)) =
        run_pass-effect create plan.ops
          (run_pass backend update plan.ops (run_pass backend delete plan.ops s 0).0 0).0 0 g₂ h in
      rw (e₁, e₂, e₃, apply)
        (
          refl,
          (
            g₃,
            λ k.
                m₃ k
                ∙ ap (pass_effect k create plan.ops)
                    (m₂ k ∙ ap (pass_effect k update plan.ops) (m₁ k)),
          ),
        )
