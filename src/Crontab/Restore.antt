-- ===== src/Crontab/Restore.antt =====
-- Deleting a job that was installed gives back the lines from before.
use cronix.Prelude.{
  [], ◌∷◌, ℕ, suc, List, All, Option, none, some, ◌≡◌, false, true, ◌++◌, refl, ap, ◌∙◌,
}
use cronix.Prelude.Text.{Text, equal_refl}
use cronix.Manifest.{NormalizedJob}
use cronix.Manifest.Validate.{match_id}
use cronix.Policy.{hash}
use cronix.Crontab.{render, render_from, strip_owned_for, owned_by}
use cronix.Crontab.Owner.{owner_line}
use cronix.Crontab.Blocks.{keep, push, strip_owned_for-keep, owned_by-is_owner_line}
use cronix.Crontab.Tidy.{IsTidy, Supported, Translates, IsTidy-render, read_owner}

-- No line marks the job.
abbrev pub Unowned : Text → Text → List Text → Type 0
Unowned app job lines = All (λ line. owned_by app job line ≡ false) lines

module _ (trigger_bin app : Text) (job : NormalizedJob) (a : match_id app ≡ true)
    (j : match_id job.name ≡ true) where
  owned_by-owner_line :
      (i : ℕ) → owned_by app job.name (owner_line app job.name (hash job i) i) ≡ true
  unfolding owned_by
  owned_by-owner_line i =
      rw (read_owner trigger_bin app job a j i, owned_by, equal_refl app, equal_refl job.name) refl

  keep-render_from :
      (i : ℕ) (scheds : List Text) (o : Option Text)
      → Translates trigger_bin app job.name scheds
      → keep app job.name o (render_from app trigger_bin job i scheds) ≡ push app job.name o []
  unfolding keep render_from
  keep-render_from i [] none t = refl
  keep-render_from i [] (some held) t = refl
  keep-render_from i (sched ∷ scheds) none t =
      let (cron, e, plain) = t.0 in
      rw (e, render_from, owned_by-owner_line i) (keep-render_from (suc i) scheds none t.1)
  keep-render_from i (sched ∷ scheds) (some held) t =
      let (cron, e, plain) = t.0 in
      rw (e, render_from, owned_by-is_owner_line app job.name _ plain, owned_by-owner_line i)
        (ap (λ r. held ∷ r) (keep-render_from (suc i) scheds none t.1))

  keep-append_render :
      (lines : List Text) (o : Option Text)
      → Unowned app job.name lines
      → Translates trigger_bin app job.name job.schedules
      → keep app job.name o (lines ++ render app trigger_bin job) ≡ push app job.name o lines
  unfolding keep render
  keep-append_render [] o u t = keep-render_from 0 job.schedules o t
  keep-append_render (line ∷ lines) none u t = keep-append_render lines (some line) u.1 t
  keep-append_render (line ∷ lines) (some held) u t =
      rw u.0 (ap (λ r. held ∷ r) (keep-append_render lines (some line) u.1 t))

-- `stripOwnedFor` removes from a crontab exactly the lines that `render` has appended: the lines
-- from before are left, in their order, if they survive a rewrite, hold no adjacent ownership
-- comments, none on the first line and none of this job, and the job is supported.
pub strip_owned_for-render :
    (trigger_bin app : Text) (job : NormalizedJob) (lines : List Text)
    → Supported trigger_bin app job
    → IsTidy lines
    → Unowned app job.name lines
    → strip_owned_for (lines ++ render app trigger_bin job) app job.name ≡ lines
strip_owned_for-render trigger_bin app job lines s tidy u =
    strip_owned_for-keep app job.name (lines ++ render app trigger_bin job)
      (IsTidy-render trigger_bin app job s lines tidy).1
    ∙ keep-append_render trigger_bin app job s.0 s.1 lines none u s.2
