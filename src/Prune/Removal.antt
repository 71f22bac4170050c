-- ===== src/Prune/Removal.antt =====
-- go/internal/cli/commands/prune.go: what is left after the command.
use cronix.Prelude.{
  ℕ, none, [], ◌∷◌, refl, List, All, ◌≡◌, if◌then◌else◌, false, Bool-cases, ◌≢◌, true, inr, subst,
  inl, sym, ap, ◌∙◌, arith,
}
use cronix.Backends.{Backend, ManagedEntry}
use cronix.Reconcile.Grouping.{marks_of, same_key_iff}
use cronix.Prune.{
  unique_from, filter_by_app, member, delete_pairs, unique_app_job, Outcome, prune_entries, prune,
  failed, pruned,
}
use cronix.Reconcile.Effect.{Contract}
use cronix.Prelude.Text.{Text, equal, equal_iff}
use cronix.Reconcile.{AppJob, same_key, key_of}
use cronix.Manifest.Validate.{match_id}

filter_by_app-marks :
    (c : ℕ) (cs : Text) (k : AppJob) (es : List ManagedEntry)
    → k.app ≡ c ∷ cs
    → marks_of k (filter_by_app (c ∷ cs) es) ≡ marks_of k es
unfolding marks_of filter_by_app
filter_by_app-marks c cs k [] h = refl
filter_by_app-marks c cs k (e ∷ es) h = elim (Bool-cases (equal e.app (c ∷ cs))) [
  | inl own ↦ rw (own, filter_by_app, marks_of, filter_by_app-marks c cs k es h) refl
  | inr other ↦ rw (other, filter_by_app, foreign other, marks_of) (filter_by_app-marks c cs k es h)
]
  where
    foreign : equal e.app (c ∷ cs) ≡ false → same_key (key_of e) k ≡ false
    foreign other = rw (h, other) refl

-- An entry that is not among the pairs has no marks.
unique_from-marks :
    (k : AppJob) (seen : List AppJob) (es : List ManagedEntry)
    → member k seen ≡ false
    → member k (unique_from seen es) ≡ false
    → marks_of k es ≡ []
unfolding marks_of unique_from member
unique_from-marks k seen [] h n = refl
unique_from-marks k seen (e ∷ es) h n = elim (Bool-cases (same_key (key_of e) k)) [
  | inl own ↦
      let fresh = subst (λ x. member x seen ≡ false) (sym ((same_key_iff (key_of e) k).0 own)) h in
      absurd (found own (rw (fresh, unique_from) at n))
  | inr other ↦ elim (Bool-cases (member (key_of e) seen)) [
    | inl old ↦ rw (other, marks_of) (unique_from-marks k seen es h (rw (old, unique_from) at n))
    | inr new ↦
        rw (other, marks_of)
          (unique_from-marks k (key_of e ∷ seen) es (later other h)
            (rest other (rw (new, unique_from) at n)))
  ]
]
  where
    found :
        same_key (key_of e) k ≡ true
        → member k (key_of e ∷ unique_from (key_of e ∷ seen) es) ≢ false
    found own m = cc (rw (own, member) at m)

    later :
        same_key (key_of e) k ≡ false → member k seen ≡ false → member k (key_of e ∷ seen) ≡ false
    later other h = rw (other, member) h

    rest :
        same_key (key_of e) k ≡ false
        → member k (key_of e ∷ unique_from (key_of e ∷ seen) es) ≡ false
        → member k (unique_from (key_of e ∷ seen) es) ≡ false
    rest other m = rw (other, member) at m

-- The pairs are of the app that is pruned.
unique_from-app :
    (c : ℕ) (cs : Text) (seen : List AppJob) (es : List ManagedEntry)
    → All (λ p. p.app ≡ c ∷ cs) (unique_from seen (filter_by_app (c ∷ cs) es))
unfolding unique_from filter_by_app
unique_from-app c cs seen [] = tt
unique_from-app c cs seen (e ∷ es) = elim (Bool-cases (equal e.app (c ∷ cs))) [
  | inr other ↦ rw (other, filter_by_app) (unique_from-app c cs seen es)
  | inl own ↦ elim (Bool-cases (member (key_of e) seen)) [
    | inl old ↦ rw (own, filter_by_app, old, unique_from) (unique_from-app c cs seen es)
    | inr new ↦
        rw (own, filter_by_app, new, unique_from)
          ((equal_iff e.app (c ∷ cs)).0 own, unique_from-app c cs (key_of e ∷ seen) es)
  ]
]

member-app :
    (app : Text) (k : AppJob) (ps : List AppJob)
    → All (λ p. p.app ≡ app) ps
    → k.app ≢ app
    → member k ps ≡ false
unfolding member
member-app app k [] h ne = refl
member-app app k (p ∷ ps) h ne = elim (Bool-cases (same_key p k)) [
  | inl e ↦ absurd (ne (ap (λ x. x.app) (sym ((same_key_iff p k).0 e)) ∙ h.0))
  | inr e ↦ rw (e, member) (member-app app k ps h.1 ne)
]

module _ {S : Type 0} (backend : Backend S) (c : Contract backend) where
  delete_pairs-marks :
      (app : Text) (ps : List AppJob) (s : S)
      → c.Good s
      → match_id app ≡ true
      → All (λ p. p.app ≡ app) ps
      → ((delete_pairs backend ps s).1 ≡ none)
        × c.Good (delete_pairs backend ps s).0
        × ((k : AppJob)
            → marks_of k (c.view (delete_pairs backend ps s).0)
              ≡ (if member k ps then [] else marks_of k (c.view s)))
  unfolding delete_pairs member
  delete_pairs-marks app [] s g m h = (refl, g, λ k. refl)
  delete_pairs-marks app (p ∷ ps) s g m h =
      let (fine, good, marks) =
        c.delete_marks s p.app p.job g (subst (λ a. match_id a ≡ true) (sym h.0) m) in
      let (done, good', marks') =
        delete_pairs-marks app ps (backend.delete s p.app p.job).0 good m h.1 in
      rw (fine, delete_pairs) (done, good', λ k. marks' k ∙ rw (marks k) (ground arith))

  pruned_marks :
      (a : ℕ) (as' : Text) (es : List ManagedEntry) (k : AppJob)
      → (if member k (unique_app_job (filter_by_app (a ∷ as') es)) then [] else marks_of k es)
        ≡ (if equal k.app (a ∷ as') then [] else marks_of k es)
  pruned_marks a as' es k = elim (Bool-cases (equal k.app (a ∷ as'))) [
    | inr other ↦
        rw
          (
            other,
            member-app (a ∷ as') k (unique_app_job (filter_by_app (a ∷ as') es))
                (unique_from-app a as' [] es) (λ e. cc ((equal_iff k.app (a ∷ as')).1 e, other)),
          )
          refl
    | inl own ↦ elim (Bool-cases (member k (unique_app_job (filter_by_app (a ∷ as') es)))) [
      | inl found ↦ rw (found, own) refl
      | inr lost ↦
          rw (lost, own)
            (sym (filter_by_app-marks a as' k es ((equal_iff k.app (a ∷ as')).0 own))
              ∙ unique_from-marks k [] (filter_by_app (a ∷ as') es) (unfold member in refl) lost)
    ]
  ]

  abbrev pub IsPruned : S × Outcome → Type 0
  IsPruned (s, failed err) = ⊥
  IsPruned (s, pruned n ps) = Unit

  -- What the entries of one app come to.
  prune_entries-marks :
      (app : Text) (es : List ManagedEntry) (s : S)
      → c.Good s
      → match_id app ≡ true
      → All (λ p. p.app ≡ app) (unique_app_job es)
      → IsPruned (prune_entries backend true es s)
        × c.Good (prune_entries backend true es s).0
        × ((k : AppJob)
            → marks_of k (c.view (prune_entries backend true es s).0)
              ≡ (if member k (unique_app_job es) then [] else marks_of k (c.view s)))
  unfolding prune_entries unique_from member
  prune_entries-marks app [] s g m h = (tt, g, λ k. refl)
  prune_entries-marks app (e ∷ es) s g m h =
      let (fine, good, marks) = delete_pairs-marks app (unique_app_job (e ∷ es)) s g m h in
      rw (fine, prune_entries) (tt, good, marks)

  -- Pruning one app, once confirmed, on a backend that keeps the contract of the reconciler: the
  -- command succeeds, no entry of the app is left, and the entries of every other app keep their
  -- hashes and indices.
  pub prune-marks :
      (a : ℕ) (as' : Text) (s : S)
      → c.Good s
      → match_id (a ∷ as') ≡ true
      → IsPruned (prune backend true (a ∷ as') s)
        × c.Good (prune backend true (a ∷ as') s).0
        × ((k : AppJob)
            → marks_of k (c.view (prune backend true (a ∷ as') s).0)
              ≡ (if equal k.app (a ∷ as') then [] else marks_of k (c.view s)))
  unfolding prune
  prune-marks a as' s g m =
      let (done, good, marks) =
        prune_entries-marks (a ∷ as') (filter_by_app (a ∷ as') (c.view s)) s g m
          (unique_from-app a as' [] (c.view s)) in
      rw (c.list_view s g, prune) (done, good, λ k. marks k ∙ pruned_marks a as' (c.view s) k)
