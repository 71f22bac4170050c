-- ===== src/Prune.antt =====
-- go/internal/cli/commands/prune.go: the command that removes what cronix owns, over any backend.
-- The flags, the prompt and the output are left out; `confirmed` is `--yes` or the answer.
pub mod Removal
use cronix.Prelude.{
  ℕ, none, some, [], ◌∷◌, List, Bool, Option, if◌then◌else◌, false, ◌++◌, not, ◌||◌, length,
}
use cronix.Backends.{listed, list_error, Backend, ManagedEntry}
use cronix.Prelude.Text.{Text, codes, equal}
use cronix.Reconcile.{AppJob, same_key, key_of}

-- `filterByApp`
unfoldable pub filter_by_app : Text → List ManagedEntry → List ManagedEntry
filter_by_app [] entries = entries
filter_by_app (c ∷ cs) [] = []
filter_by_app (c ∷ cs) (e ∷ es) =
    let rest = filter_by_app (c ∷ cs) es in if equal e.app (c ∷ cs) then e ∷ rest else rest

-- `_, ok := seen[key]`
unfoldable pub member : AppJob → List AppJob → Bool
member k [] = false
member k (x ∷ xs) = same_key x k || member k xs

unfoldable pub unique_from : List AppJob → List ManagedEntry → List AppJob
unfolding member
unique_from seen [] = []
unique_from seen (e ∷ es) =
    if member (key_of e) seen
    then unique_from seen es
    else key_of e ∷ unique_from (key_of e ∷ seen) es

-- `uniqueAppJob`
abbrev pub unique_app_job : List ManagedEntry → List AppJob
unique_app_job entries = unique_from [] entries

pub data Outcome : Type 0 where
  failed : Text → Outcome
  pruned : ℕ → List AppJob → Outcome

module _ {S : Type 0} (backend : Backend S) where
  -- The loop of deletes, up to the first error.
  unfoldable pub delete_pairs : List AppJob → S → S × Option Text
  delete_pairs [] s = (s, none)
  delete_pairs (p ∷ ps) s =
      let (s', failure) = backend.delete s p.app p.job in
      elim failure [
        | some err ↦ (
          s',
          some (codes "prune: delete " ++ (p.app ++ (b'.' ∷ (p.job ++ (codes ": " ++ err))))),
        )
        | none ↦ delete_pairs ps s'
      ]

  unfoldable pub prune_entries : Bool → List ManagedEntry → S → S × Outcome
  unfolding delete_pairs unique_from
  prune_entries confirmed [] s = (s, pruned 0 [])
  prune_entries confirmed (m ∷ ms) s =
      let pairs = unique_app_job (m ∷ ms) in
      if not confirmed
      then (s, failed (codes "prune: aborted"))
      else let (s', failure) = delete_pairs pairs s in
        elim failure [ some err ↦ (s', failed err) | none ↦ (s', pruned (length (m ∷ ms)) pairs) ]

  -- The command.
  unfoldable pub prune : Bool → Text → S → S × Outcome
  unfolding prune_entries filter_by_app
  prune confirmed app_only s = elim (backend.list s) [
    | list_error err ↦ (s, failed err)
    | listed entries ↦ prune_entries confirmed (filter_by_app app_only entries) s
  ]
