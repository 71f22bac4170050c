-- ===== src/Vercel/Plans.antt =====
-- go/internal/backends/vercel/vercel.go with go/internal/reconcile/reconcile.go: what `Compute` plans
-- against vercel.json, whose entries carry no app.
use cronix.Prelude.{
  refl, List, All, ◌≢◌, ◌≡◌, ◌∷◌, none, [], Bool-cases, Option-cases, inl, inr, sym, In, map, subst,
  ap, arith, Option, append-nil,
}
use cronix.Prelude.Text.{Text, equal, equal_iff, codes}
use cronix.Reconcile.{
  add_entry, group_onto, find_group, delete_ops, Groups, same_key, key_of, AppJob, job_ops,
  CurrentJob, job_op, compute, plan_of, planned,
}
use cronix.Vercel.{
  list_crons, CronEntry, job_name_from_path, File, list, unreadable, Doc, with_doc, document,
  no_doc, absent, vercel,
}
use cronix.Backends.{ManagedEntry, listed}
use cronix.Manifest.{NormalizedManifest, NormalizedJob}
use cronix.Reconcile.Converge.{Ranges}

-- No group is the manifest's app's.
Foreign : Text → Groups → Type 0
Foreign app groups = All (λ g. g.0.app ≢ app) groups

add_entry-Foreign :
    (app : Text) (e : ManagedEntry) (groups : Groups)
    → e.app ≢ app
    → Foreign app groups
    → Foreign app (add_entry e groups)
unfolding Foreign add_entry
add_entry-Foreign app e [] ne h = (ne, tt)
add_entry-Foreign app e (g ∷ groups) ne h = elim (Bool-cases (same_key g.0 (key_of e))) [
  | inl same ↦ rw (same, add_entry) h
  | inr other ↦ rw (other, add_entry) (h.0, add_entry-Foreign app e groups ne h.1)
]

group_onto-Foreign :
    (app : Text) (groups : Groups) (es : List ManagedEntry)
    → All (λ e. e.app ≢ app) es
    → Foreign app groups
    → Foreign app (group_onto groups es)
unfolding group_onto
group_onto-Foreign app groups [] h k = k
group_onto-Foreign app groups (e ∷ es) h k =
    group_onto-Foreign app (add_entry e groups) es h.1 (add_entry-Foreign app e groups h.0 k)

find_group-Foreign :
    (app job : Text) (groups : Groups)
    → Foreign app groups
    → find_group (record { app = app; job = job }) groups ≡ none
unfolding Foreign find_group
find_group-Foreign app job [] h = refl
find_group-Foreign app job (g ∷ groups) h = elim (Bool-cases (equal g.0.app app)) [
  | inl e ↦ absurd (h.0 ((equal_iff g.0.app app).0 e))
  | inr e ↦ rw (e, find_group) (find_group-Foreign app job groups h.1)
]

Foreign-In :
    (app : Text) (groups : Groups) (g : AppJob × CurrentJob)
    → Foreign app groups
    → In g groups
    → g.0.app ≢ app
unfolding Foreign
Foreign-In app [] g h i = absurd i
Foreign-In app (x ∷ groups) g h (inl e) = subst (λ y. y.0.app ≢ app) e h.0
Foreign-In app (x ∷ groups) g h (inr i) = Foreign-In app groups g h.1 i

delete_ops-none :
    (desired : NormalizedManifest) (groups : Groups)
    → ((g : AppJob × CurrentJob) → In g groups → g.0.app ≢ desired.app)
    → delete_ops desired groups ≡ []
unfolding delete_ops
delete_ops-none desired [] h = refl
delete_ops-none desired (g ∷ groups) h = elim (Bool-cases (equal g.0.app desired.app)) [
  | inl e ↦ absurd (h g (inl refl) ((equal_iff g.0.app desired.app).0 e))
  | inr e ↦ rw (e, delete_ops, delete_ops-none desired groups (λ x i. h x (inr i))) (ground arith)
]

list_crons-Foreign :
    (app prefix : Text) (seen : List Text) (cs : List CronEntry)
    → app ≢ []
    → All (λ e. e.app ≢ app) (list_crons prefix seen cs)
unfolding list_crons
list_crons-Foreign app prefix seen [] ne = tt
list_crons-Foreign app prefix seen (c ∷ cs) ne =
    elim (Option-cases (job_name_from_path prefix c.path)) [
      | inl e ↦ rw (e, list_crons) (list_crons-Foreign app prefix seen cs ne)
      | inr (job, e) ↦
          rw (e, list_crons) ((λ p. ne (sym p)), list_crons-Foreign app prefix (job ∷ seen) cs ne)
    ]

job_ops-creates :
    (app : Text) (groups : Groups) (jobs : List NormalizedJob)
    → Foreign app groups
    → job_ops app groups jobs ≡ map (λ job. job_op app job none) jobs
unfolding job_ops
job_ops-creates app groups [] h = refl
job_ops-creates app groups (job ∷ jobs) h =
    rw (find_group-Foreign app job.name groups h, job_ops)
      (ap (λ r. job_op app job none ∷ r) (job_ops-creates app groups jobs h))

-- vercel.json is absent, or it is read.
abbrev pub IsReadable : File → Type 0
IsReadable absent = Unit
IsReadable (unreadable err) = ⊥
IsReadable (document doc) = Unit

unfoldable pub doc_of : File → Doc
doc_of (document doc) = doc
doc_of _ = no_doc

list-readable :
    (prefix : Text) (file : File)
    → IsReadable file
    → list prefix file ≡ listed (list_crons prefix [] (doc_of file).crons)
unfolding list with_doc doc_of
list-readable prefix absent h = refl
list-readable prefix (unreadable err) h = absurd h
list-readable prefix (document doc) h = refl

-- Whatever vercel.json holds, the plan for a manifest with an app id creates each of its jobs and
-- does nothing else, also where the file has the job's entries already.
pub compute-creates_all :
    (write_fault : Option Text) (prefix : Text) (file : File) (iterate : Groups → Groups)
    (m : NormalizedManifest)
    → IsReadable file
    → Ranges iterate
    → m.app ≢ []
    → compute iterate m (vercel write_fault prefix) file
      ≡ planned
          (record { backend = codes "vercel"; ops = map (λ job. job_op m.app job none) m.jobs })
unfolding compute plan_of
compute-creates_all write_fault prefix file iterate m h ranges ne =
    let entries = list_crons prefix [] (doc_of file).crons in
    let groups =
      group_onto-Foreign m.app [] entries
        (list_crons-Foreign m.app prefix [] (doc_of file).crons ne) nothing in
    rw
      (
        list-readable prefix file h,
        compute,
        plan_of,
        job_ops-creates m.app (group_onto [] entries) m.jobs groups,
        delete_ops-none m (iterate (group_onto [] entries)) (λ g i.
            Foreign-In m.app (group_onto [] entries) g groups
              ((ranges (group_onto [] entries) g).0 i)),
        append-nil (map (λ job. job_op m.app job none) m.jobs),
      )
      refl
  where
    nothing : Foreign m.app []
    nothing = unfold Foreign in tt
