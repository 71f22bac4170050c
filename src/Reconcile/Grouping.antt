-- ===== src/Reconcile/Grouping.antt =====
-- The groups of a listing, by the marks of one job.
use cronix.Prelude.{
  ℕ, true, Option, none, some, List, [], ◌∷◌, ◌≡◌, refl, ◌↔◌, if◌then◌else◌, arith, length, ◌≢◌,
  Bool-cases, inl, suc, ap, ◌∙◌, inr, ◌++◌, sym, append-nil, append_assoc,
}
use cronix.Prelude.Text.{Text, equal_iff, equal_refl}
use cronix.Backends.{ManagedEntry}
use cronix.Reconcile.{
  AppJob, same_key, CurrentJob, no_current, add_mark, Groups, key_of, add_entry, find_group,
  group_onto, NormalizedJob, set_at, hashes_from, hashes_equal, compute_desired_hashes, hash,
  pad_to,
}

-- The (hash, index) marks of the entries of one job.
unfoldable pub marks_of : AppJob → List ManagedEntry → List (Text × ℕ)
marks_of k [] = []
marks_of k (e ∷ es) =
    let rest = marks_of k es in if same_key (key_of e) k then (e.hash, e.index) ∷ rest else rest

-- The group that a listing's marks make of a group.
unfoldable pub absorb : Option CurrentJob → List (Text × ℕ) → Option CurrentJob
absorb o [] = o
absorb none ((h, i) ∷ ms) = absorb (some (add_mark no_current h i)) ms
absorb (some cj) ((h, i) ∷ ms) = absorb (some (add_mark cj h i)) ms

pub same_key_iff : (a b : AppJob) → (same_key a b ≡ true) ↔ (a ≡ b)
same_key_iff a b = ground (arith, equal_iff a.app b.app, equal_iff a.job b.job)

find_group-add_entry :
    (k : AppJob) (e : ManagedEntry) (groups : Groups)
    → find_group k (add_entry e groups) ≡ (
        if same_key (key_of e) k
        then absorb (find_group k groups) ((e.hash, e.index) ∷ [])
        else find_group k groups)
unfolding find_group add_entry absorb
find_group-add_entry k e [] = refl
find_group-add_entry k e ((j, cj) ∷ groups) = ground (
  arith,
  find_group-add_entry k e groups,
  same_key_iff j (key_of e),
  same_key_iff j k,
  same_key_iff (key_of e) k,
)

absorb-cons :
    (o : Option CurrentJob) (m : Text × ℕ) (ms : List (Text × ℕ))
    → absorb (absorb o (m ∷ [])) ms ≡ absorb o (m ∷ ms)
unfolding absorb
absorb-cons none m ms = refl
absorb-cons (some cj) m ms = refl

find_group-group_onto :
    (k : AppJob) (es : List ManagedEntry) (groups : Groups)
    → find_group k (group_onto groups es) ≡ absorb (find_group k groups) (marks_of k es)
unfolding group_onto marks_of
find_group-group_onto k [] groups = unfold absorb in refl
find_group-group_onto k (e ∷ es) groups = elim (Bool-cases (same_key (key_of e) k)) [
  | inl same ↦
      find_group-group_onto k es (add_entry e groups)
      ∙ rw (find_group-add_entry k e groups, same) (absorb-cons (find_group k groups) _ _)
  | inr other ↦
      find_group-group_onto k es (add_entry e groups) ∙ rw (find_group-add_entry k e groups, other)
]

-- The group of a job, from the entries of that job alone.
pub find_group-marks_of :
    (k : AppJob) (es : List ManagedEntry)
    → find_group k (group_onto [] es) ≡ absorb none (marks_of k es)
unfolding find_group
find_group-marks_of k es = find_group-group_onto k es []

-- The marks that a backend leaves when it installs every schedule of a job.
unfoldable pub marks_from : NormalizedJob → ℕ → List Text → List (Text × ℕ)
marks_from job i [] = []
marks_from job i (s ∷ ss) = (hash job i, i) ∷ marks_from job (suc i) ss

abbrev pub desired_marks : NormalizedJob → List (Text × ℕ)
desired_marks job = marks_from job 0 job.schedules

set_at-pad_to :
    (hs : List Text) (h : Text) → set_at (pad_to (suc (length hs)) hs) (length hs) h ≡ hs ++ h ∷ []
unfolding set_at pad_to
set_at-pad_to [] h = refl
set_at-pad_to (x ∷ hs) h = ap (◌∷◌ x) (set_at-pad_to hs h)

length-snoc : (hs : List Text) (h : Text) → length (hs ++ h ∷ []) ≡ suc (length hs)
length-snoc [] h = refl
length-snoc (x ∷ hs) h = ap suc (length-snoc hs h)

add_mark-hashes :
    (cj : CurrentJob) (h : Text) (i : ℕ)
    → length cj.hashes ≡ i
    → (add_mark cj h i).hashes ≡ cj.hashes ++ h ∷ []
unfolding add_mark
add_mark-hashes cj h i e = rw (← e) (set_at-pad_to cj.hashes h)

-- The hashes of what was absorbed.
abbrev pub observed : Option CurrentJob → List Text
observed none = []
observed (some cj) = cj.hashes

absorb-marks_from :
    (job : NormalizedJob) (ss : List Text) (i : ℕ) (cj : CurrentJob)
    → length cj.hashes ≡ i
    → observed (absorb (some cj) (marks_from job i ss)) ≡ cj.hashes ++ hashes_from job i ss
unfolding absorb marks_from hashes_from
absorb-marks_from job [] i cj e = sym (append-nil cj.hashes)
absorb-marks_from job (s ∷ ss) i cj e =
    let step = add_mark-hashes cj (hash job i) i e in
    absorb-marks_from job ss (suc i) (add_mark cj (hash job i) i)
      (ap length step ∙ (length-snoc cj.hashes (hash job i) ∙ ap suc e))
    ∙ (ap (λ hs. hs ++ hashes_from job (suc i) ss) step
        ∙ append_assoc cj.hashes (hash job i ∷ []) (hashes_from job (suc i) ss))

pub hashes_equal_refl : (hs : List Text) → hashes_equal hs hs ≡ true
unfolding hashes_equal
hashes_equal_refl [] = refl
hashes_equal_refl (h ∷ hs) = ground (arith, equal_refl h, hashes_equal_refl hs)

-- A group matches a desired job, so that the job is skipped.
abbrev pub Matches : NormalizedJob → Option CurrentJob → Type 0
Matches job none = ⊥
Matches job (some cj) = hashes_equal cj.hashes (compute_desired_hashes job) ≡ true

Matches-some :
    (job : NormalizedJob) (o : Option CurrentJob)
    → o ≢ none
    → observed o ≡ compute_desired_hashes job
    → Matches job o
Matches-some job none h e = h refl
Matches-some job (some cj) h e = rw e (hashes_equal_refl (compute_desired_hashes job))

absorb-some-ne-none : (cj : CurrentJob) (ms : List (Text × ℕ)) → absorb (some cj) ms ≢ none
unfolding absorb
absorb-some-ne-none cj [] = λ e. cc
absorb-some-ne-none cj ((h, i) ∷ ms) = absorb-some-ne-none (add_mark cj h i) ms

absorb-desired :
    (job : NormalizedJob) (ss : List Text)
    → ss ≢ []
    → (absorb none (marks_from job 0 ss) ≢ none)
      × (observed (absorb none (marks_from job 0 ss)) ≡ hashes_from job 0 ss)
unfolding absorb marks_from hashes_from
absorb-desired job [] h = absurd (h refl)
absorb-desired job (s ∷ ss) h =
    let step = add_mark-hashes no_current (hash job 0) 0 refl in
    (
      absorb-some-ne-none (add_mark no_current (hash job 0) 0) (marks_from job 1 ss),
      absorb-marks_from job ss 1 (add_mark no_current (hash job 0) 0) (ap length step)
          ∙ ap (λ hs. hs ++ hashes_from job 1 ss) step,
    )

-- The marks of a job with a schedule make a group that matches the job.
pub Matches-desired_marks :
    (job : NormalizedJob) → job.schedules ≢ [] → Matches job (absorb none (desired_marks job))
unfolding compute_desired_hashes
Matches-desired_marks job h =
    let (found, hashes) = absorb-desired job job.schedules h in
    Matches-some job (absorb none (desired_marks job)) found
      (unfold compute_desired_hashes in hashes)

-- No marks are absorbed where no group comes out.
pub absorb-eq-none : (ms : List (Text × ℕ)) → absorb none ms ≡ none → ms ≡ []
unfolding absorb
absorb-eq-none [] e = refl
absorb-eq-none ((h, i) ∷ ms) e = absurd (absorb-some-ne-none (add_mark no_current h i) ms e)

pub absorb-nil : absorb none [] ≡ none
unfolding absorb
absorb-nil = refl
