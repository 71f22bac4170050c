-- ===== src/Crontab/Adopt/Inserts.antt =====
-- What adopting a job does to the lines of the crontab.
use cronix.Prelude.{
  refl, List, Bool, [], ◌∷◌, ℕ, ◌≡◌, ◌⊎◌, Option, Bool-cases, false, some, suc, inl, inr, zero,
  none, length, ◌==◌, true, ◌&&◌, ap,
}
use cronix.Prelude.Text.{Text}
use cronix.Crontab.Adopt.{
  adopt, insert_after, insert_markers, write_markers, adopt_pairs, adopt_wanted, adopt_read, File,
  Wanted, Divergence, adopt_matched, Candidate, exchange_sort, managed_for_job, written,
  adopted_entries,
}
use cronix.Manifest.{NormalizedJob}
use cronix.Crontab.{rewrite, owner_line, rewrite_with, read_file, write_lines, entries}
use cronix.Policy.{hash}
use cronix.Manifest.Validate.{match_id}

-- The second lines are the first ones with markers of the job between them.
pub data Marked (app : Text) (job : NormalizedJob) : List Text → List Text → Type 0 where
  unmarked : Marked app job [] []
  keep : (line : Text) (a b : List Text) → Marked app job a b → Marked app job (line ∷ a) (line ∷ b)
  mark :
      (i : ℕ) (a b : List Text)
      → Marked app job a b
      → Marked app job a (owner_line app job.name (hash job i) i ∷ b)

-- The file is as before, or it is marked and the call is not a dry run.
abbrev pub IsMarked : Text → NormalizedJob → Bool → File → File → Type 0
IsMarked app job dry_run file file' =
    (file' ≡ file)
    ⊎ (dry_run ≡ false)
      × ((lines : List Text) × (out : List Text) × (read_file file ≡ some lines)
          × (file' ≡ some (write_lines out))
          × Marked app job lines out)

module _ (app : Text) (job : NormalizedJob) where
  Marked-refl : (a : List Text) → Marked app job a a
  Marked-refl [] = unmarked
  Marked-refl (x ∷ a) = keep x a a (Marked-refl a)

  insert_after-Marked :
      (i n : ℕ) (a b : List Text)
      → Marked app job a b
      → Marked app job a (insert_after n (owner_line app job.name (hash job i) i) b)
  unfolding insert_after
  insert_after-Marked i n _ _ unmarked = unmarked
  insert_after-Marked i zero _ _ (keep x a b p) = keep x a _ (mark i a b p)
  insert_after-Marked i (suc n) _ _ (keep x a b p) = keep x a _ (insert_after-Marked i n a b p)
  insert_after-Marked i zero _ _ (mark j a b p) = mark j a _ (mark i a b p)
  insert_after-Marked i (suc n) _ _ (mark j a b p) = mark j a _ (insert_after-Marked i n a b p)

  insert_markers-Marked :
      (bin : Text) (ps : List (Wanted × Candidate)) (a b : List Text)
      → Marked app job a b
      → Marked app job a (insert_markers bin app job ps b)
  unfolding insert_markers
  insert_markers-Marked bin [] a b h = h
  insert_markers-Marked bin (p ∷ ps) a b h =
      insert_markers-Marked bin ps a _ (insert_after-Marked p.0.idx p.1.line_index a b h)

  write_markers-IsMarked :
      (bin : Text) (dry_run : Bool) (ps : List (Wanted × Candidate)) (lines : List Text)
      (file : File)
      → read_file file ≡ some lines
      → IsMarked app job dry_run file (write_markers bin app job dry_run ps lines file).0
  unfolding write_markers rewrite rewrite_with written
  write_markers-IsMarked bin true ps lines file h = inl refl
  write_markers-IsMarked bin false ps lines file h =
      let markers = insert_markers bin app job (exchange_sort (length ps) ps) in
      inr (
        refl,
        (
          lines,
          markers lines,
          h,
          ap
              (λ r.
                (written bin app job (adopted_entries bin app job lines ps)
                  (rewrite_with markers file r)).0)
              h,
          insert_markers-Marked bin (exchange_sort (length ps) ps) lines lines (Marked-refl lines),
        ),
      )

  adopt_pairs-IsMarked :
      (bin : Text) (dry_run found : Bool) (ds : List Divergence) (ps : List (Wanted × Candidate))
      (lines : List Text) (file : File)
      → read_file file ≡ some lines
      → IsMarked app job dry_run file (adopt_pairs bin app job dry_run found ds ps lines file).0
  unfolding adopt_pairs
  adopt_pairs-IsMarked bin dry_run found (d ∷ ds) ps lines file h = inl refl
  adopt_pairs-IsMarked bin dry_run found [] ps lines file h =
      write_markers-IsMarked bin dry_run ps lines file h

  adopt_wanted-IsMarked :
      (bin : Text) (dry_run : Bool) (ws : Divergence ⊎ List Wanted) (cs : List Candidate)
      (lines : List Text) (file : File)
      → read_file file ≡ some lines
      → IsMarked app job dry_run file (adopt_wanted bin app job dry_run ws cs lines file).0
  unfolding adopt_wanted adopt_matched
  adopt_wanted-IsMarked bin dry_run (inl d) cs lines file h = inl refl
  adopt_wanted-IsMarked bin dry_run (inr ws) cs lines file h =
      elim (Bool-cases
        ((managed_for_job app job.name (entries lines) == length ws) && (length cs == 0))) [
          | inl managed ↦ rw managed (inl refl)
          | inr unmanaged ↦ rw unmanaged (adopt_pairs-IsMarked bin dry_run _ _ _ lines file h)
        ]

  adopt_read-IsMarked :
      (bin : Text) (dry_run : Bool) (file : File) (r : Option (List Text))
      → read_file file ≡ r
      → IsMarked app job dry_run file (adopt_read bin app job dry_run file r).0
  unfolding adopt_read
  adopt_read-IsMarked bin dry_run file none h = inl refl
  adopt_read-IsMarked bin dry_run file (some lines) h =
      adopt_wanted-IsMarked bin dry_run _ _ lines file h

-- Adopting a job changes the file only where it is not a dry run, and then only by lines that
-- mark the job: every line stays, in its order.
pub adopt-IsMarked :
    (trigger_bin app : Text) (job : NormalizedJob) (dry_run : Bool) (file : File)
    → IsMarked app job dry_run file (adopt trigger_bin app job dry_run file).0
unfolding adopt
adopt-IsMarked bin app job dry_run file = elim (Bool-cases (match_id app)) [
  | inr bad ↦ rw bad (inl refl)
  | inl good ↦ elim (Bool-cases (match_id job.name)) [
    | inr bad ↦ rw (good, bad) (inl refl)
    | inl fine ↦
        rw (good, fine) (adopt_read-IsMarked app job bin dry_run file (read_file file) refl)
  ]
]
