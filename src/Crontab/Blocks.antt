-- ===== src/Crontab/Blocks.antt =====
-- The owned blocks of a crontab, and what `stripOwnedFor` leaves of them.
use cronix.Prelude.{
  [], ◌∷◌, ℕ, List, Bool, true, false, not, ◌++◌, ◌≡◌, refl, Option, none, some, if◌then◌else◌, All,
  Bool-cases, inl, inr, arith, ◌∙◌, sym, ap, append-nil, append_assoc,
}
use mathlib.Core.List.{reverse, reverse-cons}
use cronix.Prelude.Text.{Text, equal_iff}
use cronix.Reconcile.{AppJob, same_key}
use cronix.Reconcile.Grouping.{marks_of}
use cronix.Crontab.{
  is_owner_line, owned_by, strip_onto, strip_owned_for, index_of, entries, entries_after,
}
use cronix.Crontab.Owner.{OwnerGroups, match_owner}
use cronix.Prelude.Text.Decimal.{parse_int}

-- No two owner lines are adjacent, and none is first where `plain` is false.
unfoldable pub Spaced : Bool → List Text → Type 0
Spaced plain [] = Unit
Spaced plain (line ∷ lines) =
    (is_owner_line line ≡ true → plain ≡ true) × Spaced (not (is_owner_line line)) lines

-- The (hash, index) marks of the owner lines of one job.
unfoldable pub line_marks : AppJob → List Text → List (Text × ℕ)
unfolding match_owner index_of
line_marks k [] = []
line_marks k (line ∷ lines) =
    let rest = line_marks k lines in
    elim (match_owner line) [
      | none ↦ rest
      | some o ↦
          if same_key (record { app = o.app; job = o.job }) k
          then (o.hash, index_of (parse_int o.idx)) ∷ rest
          else rest
    ]

marks_of-entries_after :
    (k : AppJob) (prev : Text) (lines : List Text)
    → marks_of k (entries_after prev lines) ≡ line_marks k lines
unfolding marks_of entries_after line_marks
marks_of-entries_after k prev [] = refl
marks_of-entries_after k prev (line ∷ lines) = ground (arith, marks_of-entries_after k line lines)

-- Where the first line is no owner line, the entries that `List` gives are the marked lines.
pub marks_of-entries :
    (k : AppJob) (lines : List Text)
    → Spaced false lines
    → marks_of k (entries lines) ≡ line_marks k lines
unfolding marks_of entries line_marks Spaced is_owner_line
marks_of-entries k [] h = refl
marks_of-entries k (line ∷ lines) h = ground (arith, marks_of-entries_after k line lines)

pub line_marks-append :
    (k : AppJob) (xs ys : List Text) → line_marks k (xs ++ ys) ≡ line_marks k xs ++ line_marks k ys
unfolding line_marks
line_marks-append k [] ys = refl
line_marks-append k (x ∷ xs) ys = ground (arith, line_marks-append k xs ys)

pub Spaced-append :
    (xs ys : List Text) (plain : Bool)
    → Spaced plain xs
    → ((p : Bool) → Spaced p ys)
    → Spaced plain (xs ++ ys)
unfolding Spaced
Spaced-append [] ys plain h k = k plain
Spaced-append (x ∷ xs) ys plain h k = (h.0, Spaced-append xs ys _ h.1 k)

pub line_marks-nil : (k : AppJob) → line_marks k [] ≡ []
unfolding line_marks
line_marks-nil k = refl

module _ (app job : Text) where
  -- What is left behind a line that may still be dropped.
  unfoldable pub keep : Option Text → List Text → List Text
  keep none [] = []
  keep none (line ∷ lines) = keep (some line) lines
  keep (some held) [] = held ∷ []
  keep (some held) (line ∷ lines) =
      let dropped = keep none lines in
      let kept = keep (some line) lines in if owned_by app job line then dropped else held ∷ kept

  pub owned_by-is_owner_line :
      (line : Text) → is_owner_line line ≡ false → owned_by app job line ≡ false
  unfolding owned_by is_owner_line
  owned_by-is_owner_line line h = ground arith

  abbrev pub flag : Option Text → Bool
  flag none = false
  flag (some held) = not (is_owner_line held)

  abbrev pub push : Option Text → List Text → List Text
  push none out = out
  push (some held) out = held ∷ out

  -- The first of the lines behind a dropped line or the start is never dropped.
  first_kept :
      (line : Text) (lines : List Text)
      → Spaced false (line ∷ lines)
      → owned_by app job line ≡ false
  unfolding Spaced
  first_kept line lines h = elim (Bool-cases (is_owner_line line)) [
    | inl marked ↦ cc (h.0 marked)
    | inr plain ↦ owned_by-is_owner_line line plain
  ]

  owned_by-marked : (line : Text) → owned_by app job line ≡ true → is_owner_line line ≡ true
  unfolding owned_by is_owner_line
  owned_by-marked line h = ground arith

  reverse-before :
      (held : Text) (out rest : List Text)
      → reverse (held ∷ out) ++ rest ≡ reverse out ++ held ∷ rest
  reverse-before held out rest =
      ap (λ r. r ++ rest) (reverse-cons held out) ∙ append_assoc (reverse out) (held ∷ []) rest

  strip_onto-keep :
      (lines out : List Text) (o : Option Text)
      → Spaced (flag o) lines
      → strip_onto app job (push o out) lines ≡ reverse out ++ keep o lines
  unfolding strip_onto keep Spaced
  strip_onto-keep [] out none h = sym (append-nil (reverse out))
  strip_onto-keep [] out (some held) h = reverse-cons held out
  strip_onto-keep (line ∷ lines) out none h =
      rw (first_kept line lines h) (strip_onto-keep lines out (some line) h.1)
  strip_onto-keep (line ∷ lines) out (some held) h = elim (Bool-cases (owned_by app job line)) [
    | inl dropped ↦
        rw dropped (strip_onto-keep lines out none (rw (owned_by-marked line dropped) at h.1))
    | inr kept ↦ rw kept (
        strip_onto-keep lines (held ∷ out) (some line) h.1
        ∙ reverse-before held out (keep (some line) lines))
  ]

  pub strip_owned_for-keep :
      (lines : List Text) → Spaced false lines → strip_owned_for lines app job ≡ keep none lines
  unfolding strip_owned_for
  strip_owned_for-keep lines h = strip_onto-keep lines [] none h

  pub All-keep :
      (P : Text → Type 0) (lines : List Text) (o : Option Text)
      → All P (push o lines)
      → All P (keep o lines)
  unfolding keep
  All-keep P [] none h = tt
  All-keep P [] (some held) h = h
  All-keep P (line ∷ lines) none h = All-keep P lines (some line) h
  All-keep P (line ∷ lines) (some held) h = elim (Bool-cases (owned_by app job line)) [
    | inl dropped ↦ rw dropped (All-keep P lines none h.1.1)
    | inr kept ↦ rw kept (h.0, All-keep P lines (some line) h.1)
  ]

  -- A line before lines that start as they should.
  abbrev pub Before : Option Text → Bool → Type 0
  Before none p = Unit
  Before (some held) p = is_owner_line held ≡ true → p ≡ true

  pub Spaced-keep :
      (lines : List Text) (o : Option Text) (p : Bool)
      → Before o p
      → Spaced (flag o) lines
      → Spaced p (keep o lines)
  unfolding keep Spaced
  Spaced-keep [] none p b h = tt
  Spaced-keep [] (some held) p b h = (b, tt)
  Spaced-keep (line ∷ lines) none p b h = Spaced-keep lines (some line) p (λ e. cc (h.0 e)) h.1
  Spaced-keep (line ∷ lines) (some held) p b h = elim (Bool-cases (owned_by app job line)) [
    | inl dropped ↦
        let marked = owned_by-marked line dropped in
        rw dropped (Spaced-keep lines none p tt (rw marked at h.1))
    | inr kept ↦ rw kept (b, Spaced-keep lines (some line) _ h.0 h.1)
  ]

  abbrev pub own_key : AppJob
  own_key = record { app = app; job = job }

  -- What the deletion of the job leaves of the marks of a job.
  abbrev pub left_of : AppJob → List (Text × ℕ) → List (Text × ℕ)
  left_of k ms = if same_key own_key k then [] else ms

  abbrev pub NotOwned : Option Text → Type 0
  NotOwned none = Unit
  NotOwned (some held) = owned_by app job held ≡ false

  pub line_marks-plain :
      (k : AppJob) (line : Text) (xs : List Text)
      → is_owner_line line ≡ false
      → line_marks k (line ∷ xs) ≡ line_marks k xs
  unfolding line_marks is_owner_line
  line_marks-plain k line xs h = ground arith

  line_marks-owned :
      (k : AppJob) (line : Text) (xs : List Text)
      → owned_by app job line ≡ true
      → left_of k (line_marks k (line ∷ xs)) ≡ left_of k (line_marks k xs)
  unfolding line_marks owned_by
  line_marks-owned k line xs h = by_owner (match_owner line) refl
    where
      by_owner :
          (o : Option OwnerGroups)
          → match_owner line ≡ o
          → left_of k (line_marks k (line ∷ xs)) ≡ left_of k (line_marks k xs)
      by_owner none e = cc (rw (e, owned_by) at h)
      by_owner (some o) e =
          rw (e, line_marks)
            (ground (arith, equal_iff o.app app, equal_iff o.job job, rw (e, owned_by) at h))

  line_marks-foreign :
      (k : AppJob) (line : Text) (xs : List Text)
      → owned_by app job line ≡ false
      → left_of k (line_marks k (line ∷ xs))
        ≡ line_marks k (line ∷ []) ++ left_of k (line_marks k xs)
  unfolding line_marks owned_by
  line_marks-foreign k line xs h = by_owner (match_owner line) refl
    where
      by_owner :
          (o : Option OwnerGroups)
          → match_owner line ≡ o
          → left_of k (line_marks k (line ∷ xs))
            ≡ line_marks k (line ∷ []) ++ left_of k (line_marks k xs)
      by_owner none e = rw (e, line_marks) refl
      by_owner (some o) e =
          rw (e, line_marks)
            (ground (
              arith,
              equal_iff o.app app,
              equal_iff o.job job,
              equal_iff o.app k.app,
              equal_iff o.job k.job,
              equal_iff app k.app,
              equal_iff job k.job,
              rw (e, owned_by) at h,
            ))

  pub line_marks-keep :
      (k : AppJob) (lines : List Text) (o : Option Text)
      → NotOwned o
      → Spaced (flag o) lines
      → line_marks k (keep o lines) ≡ left_of k (line_marks k (push o lines))
  unfolding keep Spaced
  line_marks-keep k [] none n h = ground (arith, line_marks-nil k)
  line_marks-keep k [] (some held) n h = sym (
      line_marks-foreign k held [] n
      ∙ (ap (λ r. line_marks k (held ∷ []) ++ r) (ground (arith, line_marks-nil k))
          ∙ append-nil (line_marks k (held ∷ []))))
  line_marks-keep k (line ∷ lines) none n h =
      line_marks-keep k lines (some line) (first_kept line lines h) h.1
  line_marks-keep k (line ∷ lines) (some held) n h = elim (Bool-cases (owned_by app job line)) [
    | inl dropped ↦
        let marked = owned_by-marked line dropped in
        rw dropped (
          line_marks-keep k lines none tt (rw marked at h.1)
          ∙ sym (
              ap (left_of k) (line_marks-plain k held (line ∷ lines) (ground (arith, h.0 marked)))
              ∙ line_marks-owned k line lines dropped))
    | inr kept ↦ rw kept (
        line_marks-append k (held ∷ []) (keep (some line) lines)
        ∙ ap (λ r. line_marks k (held ∷ []) ++ r) (line_marks-keep k lines (some line) kept h.1)
        ∙ sym (line_marks-foreign k held (line ∷ lines) n))
  ]
