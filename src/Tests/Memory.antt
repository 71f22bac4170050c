-- ===== src/Tests/Memory.antt =====
-- A backend that holds its entries in memory, and that it keeps the contract.
use cronix.Prelude.{
  ℕ, List, [], ◌∷◌, ◌++◌, suc, none, if◌then◌else◌, ◌≡◌, arith, refl, Bool, ◌∙◌, append-nil, true,
  false,
}
use cronix.Prelude.Text.{Text, codes}
use cronix.Policy.{hash}
use cronix.Manifest.{NormalizedJob}
use cronix.Backends.{ManagedEntry, Backend, listed}
use cronix.Reconcile.{AppJob, same_key, key_of}
use cronix.Reconcile.Grouping.{marks_of, marks_from, desired_marks, same_key_iff}
use cronix.Reconcile.Effect.{Contract}

unfoldable pub entries_from : Text → NormalizedJob → ℕ → List Text → List ManagedEntry
entries_from app job i [] = []
entries_from app job i (s ∷ ss) =
    record { app = app; job = job.name; hash = hash job i; index = i; raw = s }
    ∷ entries_from app job (suc i) ss

unfoldable pub without : AppJob → List ManagedEntry → List ManagedEntry
without k [] = []
without k (e ∷ es) = let rest = without k es in if same_key (key_of e) k then rest else e ∷ rest

abbrev pub memory : Backend (List ManagedEntry)
memory = record {
  name = codes "memory";
  list = listed;
  create = λ es app job. (es ++ entries_from app job 0 job.schedules, none);
  update = λ es app job. (
    without (record { app = app; job = job.name }) es ++ entries_from app job 0 job.schedules,
    none,
  );
  delete = λ es app job. (without (record { app = app; job = job }) es, none);
}

pub marks_of-append :
    (k : AppJob) (xs ys : List ManagedEntry)
    → marks_of k (xs ++ ys) ≡ marks_of k xs ++ marks_of k ys
unfolding marks_of
marks_of-append k [] ys = refl
marks_of-append k (e ∷ xs) ys = ground (arith, marks_of-append k xs ys)

pub marks_of-entries :
    (k : AppJob) (app : Text) (job : NormalizedJob) (i : ℕ) (ss : List Text)
    → marks_of k (entries_from app job i ss)
      ≡ (if same_key (record { app = app; job = job.name }) k then marks_from job i ss else [])
unfolding marks_of entries_from marks_from
marks_of-entries k app job i [] = ground arith
marks_of-entries k app job i (s ∷ ss) = ground (arith, marks_of-entries k app job (suc i) ss)

pub marks_of-without :
    (k j : AppJob) (es : List ManagedEntry)
    → marks_of k (without j es) ≡ (if same_key j k then [] else marks_of k es)
unfolding marks_of without
marks_of-without k j [] = ground arith
marks_of-without k j (e ∷ es) = ground (
  arith,
  marks_of-without k j es,
  same_key_iff j k,
  same_key_iff (key_of e) j,
  same_key_iff (key_of e) k,
)

module _ {A : Type 0} where
  pub if-append :
      (b : Bool) (xs ys : List A) → xs ++ (if b then ys else []) ≡ (if b then xs ++ ys else xs)
  if-append true xs ys = refl
  if-append false xs ys = append-nil xs

  pub if-append_if :
      (b : Bool) (xs ys : List A)
      → (if b then [] else xs) ++ (if b then ys else []) ≡ (if b then ys else xs)
  if-append_if true xs ys = refl
  if-append_if false xs ys = append-nil xs

abbrev pub memory_contract : Contract memory
memory_contract = record {
  Good = λ es. Unit;
  Supported = λ app job. Unit;
  view = λ es. es;
  list_view = λ es g. refl;
  create_marks = λ es app job g h. (
    refl,
    tt,
    λ k.
        marks_of-append k es (entries_from app job 0 job.schedules)
        ∙ rw (marks_of-entries k app job 0 job.schedules)
            (if-append _ (marks_of k es) (desired_marks job)),
  );
  update_marks = λ es app job g h. (
    refl,
    tt,
    λ k.
        marks_of-append k (without (record { app = app; job = job.name }) es)
          (entries_from app job 0 job.schedules)
        ∙ rw
            (
              marks_of-without k (record { app = app; job = job.name }) es,
              marks_of-entries k app job 0 job.schedules,
            )
            (if-append_if _ (marks_of k es) (desired_marks job)),
  );
  delete_marks =
      λ es app job g h. (refl, tt, λ k. marks_of-without k (record { app = app; job = job }) es);
}
