-- ===== src/Aws/Scheduler/Paging.antt =====
-- go/internal/backends/aws/backend.go: the loop of `List` over the pages.
use cronix.Prelude.{
  ℕ, Option, List, ◌∷◌, ◌≡◌, ◌++◌, [], none, ◌⊎◌, some, length, ◌≤◌, Option-cases, suc, inl, inr,
  zero, refl, append-nil, arith,
}
use cronix.Aws.Scheduler.{
  Api, Options, add_page, Page, AwsEntry, answered, entries, Entries, Answer, list_from,
  entries_error, service_error, unfinished, list,
}
use cronix.Prelude.Text.{Text}
use cronix.Policy.{schedule_prefix}
use cronix.Aws.Description.{parse_description}

Answer-cases :
    {A : Type 0} (a : Answer A)
    → ((err : Text) × (a ≡ service_error err)) ⊎ ((x : A) × (a ≡ answered x))
Answer-cases (answered x) = inr (x, refl)
Answer-cases (service_error err) = inl (err, refl)

Entries-cases :
    (x : Entries)
    → ((out : List AwsEntry) × (x ≡ entries out))
      ⊎ (((err : Text) × (x ≡ entries_error err)) ⊎ (x ≡ unfinished))
Entries-cases (entries out) = inl (out, refl)
Entries-cases (entries_error err) = inr (inl (err, refl))
Entries-cases unfinished = inr (inr refl)

module _ {S : Type 0} (api : Api S) (opts : Options) where
  -- The pages from a token on, as the service hands them out: each token leads to the next page.
  pub data Pages : Option Text → S → List Page → Type 0 where
    last_page :
        {next : Option Text} {s : S} (page : Page)
        → api.list_schedules opts.schedule_group schedule_prefix next s ≡ answered page
        → (page.next ≡ none) ⊎ (page.next ≡ some [])
        → Pages next s (page ∷ [])
    more_pages :
        {next : Option Text} {s : S} (page : Page) (c : ℕ) (cs : Text) (pages : List Page)
        → api.list_schedules opts.schedule_group schedule_prefix next s ≡ answered page
        → page.next ≡ some (c ∷ cs)
        → Pages (some (c ∷ cs)) s pages
        → Pages next s (page ∷ pages)

  -- The names of all pages, in order.
  unfoldable pub names_of : List Page → List Text
  names_of [] = []
  names_of (p ∷ ps) = p.names ++ names_of ps

  abbrev and_then : Entries → (List AwsEntry → Entries) → Entries
  and_then (entries out) next = next out
  and_then (entries_error err) next = entries_error err
  and_then unfinished next = unfinished

  add_page-append :
      (xs ys : List Text) (out : List AwsEntry) (s : S)
      → add_page api opts (xs ++ ys) out s
        ≡ and_then (add_page api opts xs out s) (λ out'. add_page api opts ys out' s)
  unfolding add_page
  add_page-append [] ys out s = refl
  add_page-append (x ∷ xs) ys out s =
      elim (Answer-cases (api.get_schedule opts.schedule_group x s)) [
        | inl (err, e) ↦ rw (e, add_page) refl
        | inr (full, e) ↦ elim (Option-cases (parse_description full.description)) [
          | inl foreign ↦ rw (e, add_page, foreign) (add_page-append xs ys out s)
          | inr (d, own) ↦
              rw (e, add_page, own)
                (add_page-append xs ys (out ++ record { described = d; arn = full.arn } ∷ []) s)
        ]
      ]

  list_from-Pages :
      (fuel : ℕ) (next : Option Text) (out : List AwsEntry) (s : S) (pages : List Page)
      → Pages next s pages
      → length pages ≤ fuel
      → list_from api opts fuel next out s ≡ add_page api opts (names_of pages) out s
  unfolding list_from names_of
  list_from-Pages zero next out s pages (last_page page e end) le = elim le [ ]
  list_from-Pages zero next out s pages (more_pages page c cs pages' e n rest) le = elim le [ ]
  list_from-Pages (suc fuel) next out s pages (last_page page e (inl end)) le =
      elim (Entries-cases (add_page api opts page.names out s)) [
        | inl (out', x) ↦ rw (append-nil page.names, e, list_from, x, end) refl
        | inr (inl (err, x)) ↦ rw (append-nil page.names, e, list_from, x) refl
        | inr (inr x) ↦ rw (append-nil page.names, e, list_from, x) refl
      ]
  list_from-Pages (suc fuel) next out s pages (last_page page e (inr end)) le =
      elim (Entries-cases (add_page api opts page.names out s)) [
        | inl (out', x) ↦ rw (append-nil page.names, e, list_from, x, end) refl
        | inr (inl (err, x)) ↦ rw (append-nil page.names, e, list_from, x) refl
        | inr (inr x) ↦ rw (append-nil page.names, e, list_from, x) refl
      ]
  list_from-Pages (suc fuel) next out s pages (more_pages page c cs pages' e n rest) le =
      elim (Entries-cases (add_page api opts page.names out s)) [
        | inl (out', x) ↦
            rw (add_page-append page.names (names_of pages') out s, e, list_from, x, n)
              (list_from-Pages fuel (some (c ∷ cs)) out' s pages' rest (omega arith))
        | inr (inl (err, x)) ↦
            rw (add_page-append page.names (names_of pages') out s, e, list_from, x) refl
        | inr (inr x) ↦
            rw (add_page-append page.names (names_of pages') out s, e, list_from, x) refl
      ]

  -- The loop over the pages ends when the service's tokens do: with as much fuel as there are pages,
  -- `List` is one pass over the names of all pages in their order.
  pub list-Pages :
      (fuel : ℕ) (s : S) (pages : List Page)
      → Pages none s pages
      → length pages ≤ fuel
      → list api opts fuel s ≡ add_page api opts (names_of pages) [] s
  unfolding list
  list-Pages fuel s pages h le = list_from-Pages fuel none [] s pages h le
