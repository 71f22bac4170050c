-- ===== src/Vercel/Entries.antt =====
-- go/internal/backends/vercel/vercel.go: which entries `Delete` and `Update` leave in vercel.json.
use cronix.Prelude.{
  refl, none, All, List, In, ◌≡◌, ◌∷◌, ◌⊎◌, ◌↔◌, ◌≢◌, ◌++◌, [], inl, ap, inr, false, Bool-cases,
  sym, ◌∙◌, append-nil, append_assoc, In-append, In-append_left, In-append_right,
}
use cronix.Vercel.{
  insert_cron, sort_crons, without_path, add_crons, CronEntry, schedule_issue, cron_less, Doc,
  update, delete, File, create, write, name_issue, with_doc, document, unreadable, absent,
}
use cronix.Manifest.{NormalizedJob}
use cronix.Prelude.Text.{Text, equal, equal_iff}
use cronix.Vercel.Plans.{doc_of, IsReadable}

insert_cron-In :
    (c x : CronEntry) (xs : List CronEntry) → In c (insert_cron x xs) → (x ≡ c) ⊎ In c xs
unfolding insert_cron
insert_cron-In c x [] h = h
insert_cron-In c x (y ∷ ys) h = elim (Bool-cases (cron_less y x)) [
  | inr e ↦ rw (e, insert_cron) at h
  | inl e ↦ later (rw (e, insert_cron) at h) (insert_cron-In c x ys)
]
  where
    later :
        (y ≡ c) ⊎ In c (insert_cron x ys)
        → (In c (insert_cron x ys) → (x ≡ c) ⊎ In c ys)
        → (x ≡ c) ⊎ ((y ≡ c) ⊎ In c ys)
    later (inl p) rest = inr (inl p)
    later (inr h) rest = elim (rest h) [ inl p ↦ inl p | inr i ↦ inr (inr i) ]

In-insert_cron :
    (c x : CronEntry) (xs : List CronEntry) → (x ≡ c) ⊎ In c xs → In c (insert_cron x xs)
unfolding insert_cron
In-insert_cron c x [] h = h
In-insert_cron c x (y ∷ ys) h = elim (Bool-cases (cron_less y x)) [
  | inr e ↦ rw (e, insert_cron) h
  | inl e ↦ rw (e, insert_cron) (later h (In-insert_cron c x ys))
]
  where
    later :
        (x ≡ c) ⊎ ((y ≡ c) ⊎ In c ys)
        → ((x ≡ c) ⊎ In c ys → In c (insert_cron x ys))
        → (y ≡ c) ⊎ In c (insert_cron x ys)
    later (inl p) rest = inr (rest (inl p))
    later (inr (inl p)) rest = inl p
    later (inr (inr i)) rest = inr (rest (inr i))

-- Sorting keeps the entries.
In-sort_crons : (c : CronEntry) (xs : List CronEntry) → In c (sort_crons xs) ↔ In c xs
unfolding sort_crons
In-sort_crons c [] = ((λ h. h), (λ h. h))
In-sort_crons c (x ∷ xs) = (
  λ h. elim (insert_cron-In c x (sort_crons xs) h) [
    | inl p ↦ inl p
    | inr i ↦ inr ((In-sort_crons c xs).0 i)
  ],
  λ h.
      In-insert_cron c x (sort_crons xs)
        (elim h [ inl p ↦ inl p | inr i ↦ inr ((In-sort_crons c xs).1 i) ]),
)

without_path-In :
    (path : Text) (c : CronEntry) (xs : List CronEntry)
    → In c (without_path path xs)
    → In c xs × (c.path ≢ path)
unfolding without_path
without_path-In path c [] h = absurd h
without_path-In path c (x ∷ xs) h = elim (Bool-cases (equal x.path path)) [
  | inl e ↦ let (i, ne) = without_path-In path c xs (rw (e, without_path) at h) in (inr i, ne)
  | inr e ↦ kept e (rw (e, without_path) at h) (without_path-In path c xs)
]
  where
    kept :
        equal x.path path ≡ false
        → (x ≡ c) ⊎ In c (without_path path xs)
        → (In c (without_path path xs) → In c xs × (c.path ≢ path))
        → ((x ≡ c) ⊎ In c xs) × (c.path ≢ path)
    kept e (inl p) rest = (inl p, λ q. cc ((equal_iff x.path path).1 (ap (λ k. k.path) p ∙ q), e))
    kept e (inr i) rest = (inr (rest i).0, (rest i).1)

In-without_path :
    (path : Text) (c : CronEntry) (xs : List CronEntry)
    → In c xs
    → c.path ≢ path
    → In c (without_path path xs)
unfolding without_path
In-without_path path c [] h ne = absurd h
In-without_path path c (x ∷ xs) (inl p) ne = elim (Bool-cases (equal x.path path)) [
  | inl e ↦ absurd (ne (sym (ap (λ k. k.path) p) ∙ (equal_iff x.path path).0 e))
  | inr e ↦ rw (e, without_path) (inl p)
]
In-without_path path c (x ∷ xs) (inr h) ne = elim (Bool-cases (equal x.path path)) [
  | inl e ↦ rw (e, without_path) (In-without_path path c xs h ne)
  | inr e ↦ rw (e, without_path) (inr (In-without_path path c xs h ne))
]

-- Every schedule is one that Vercel takes.
abbrev pub Accepted : NormalizedJob → Type 0
Accepted job = All (λ s. schedule_issue s ≡ none) job.schedules

entries_at : Text → List Text → List CronEntry
entries_at path [] = []
entries_at path (s ∷ ss) = record { path = path; schedule = s } ∷ entries_at path ss

add_crons-entries :
    (path : Text) (ss : List Text) (crons : List CronEntry)
    → All (λ s. schedule_issue s ≡ none) ss
    → add_crons path ss crons ≡ (crons ++ entries_at path ss, none)
unfolding add_crons entries_at
add_crons-entries path [] crons h = ap (λ x. (x, none)) (sym (append-nil crons))
add_crons-entries path (s ∷ ss) crons h =
    rw (h.0, add_crons)
      (add_crons-entries path ss (crons ++ record { path = path; schedule = s } ∷ []) h.1
        ∙ ap (λ x. (x, none))
            (append_assoc crons (record { path = path; schedule = s } ∷ []) (entries_at path ss)))

entries_at-In :
    (path : Text) (c : CronEntry) (ss : List Text)
    → In c (entries_at path ss) ↔ ((c.path ≡ path) × In c.schedule ss)
unfolding entries_at
entries_at-In path c [] = ((λ h. absurd h), (λ h. h.1))
entries_at-In path c (s ∷ ss) =
    (forth (entries_at-In path c ss).0, back (entries_at-In path c ss).1)
  where
    forth :
        (In c (entries_at path ss) → (c.path ≡ path) × In c.schedule ss)
        → (record { path = path; schedule = s } ≡ c) ⊎ In c (entries_at path ss)
        → (c.path ≡ path) × ((s ≡ c.schedule) ⊎ In c.schedule ss)
    forth rest (inl p) = (sym (ap (λ k. k.path) p), inl (ap (λ k. k.schedule) p))
    forth rest (inr i) = ((rest i).0, inr (rest i).1)

    back :
        ((c.path ≡ path) × In c.schedule ss → In c (entries_at path ss))
        → (c.path ≡ path) × ((s ≡ c.schedule) ⊎ In c.schedule ss)
        → (record { path = path; schedule = s } ≡ c) ⊎ In c (entries_at path ss)
    back rest (p, inl q) = inl (λ i. record { path = sym p i; schedule = q i })
    back rest (p, inr i) = inr (rest (p, i))

-- The document that `Update` writes.
updated : Text → Doc → NormalizedJob → Doc
updated prefix doc job = record doc {
  crons = sort_crons (
      sort_crons (without_path (prefix ++ job.name) doc.crons)
      ++ entries_at (prefix ++ job.name) job.schedules);
}

delete-document :
    (prefix : Text) (file : File) (job : Text)
    → IsReadable file
    → name_issue job ≡ none
    → delete none prefix file job ≡ (
      document (record {
        crons = sort_crons (without_path (prefix ++ job) (doc_of file).crons);
        other = (doc_of file).other;
      }),
      none,
    )
unfolding delete with_doc write doc_of
delete-document prefix absent job h n = rw (n, delete, with_doc, write) refl
delete-document prefix (unreadable err) job h n = absurd h
delete-document prefix (document doc) job h n = rw (n, delete, with_doc, write) refl

create-document :
    (prefix : Text) (doc : Doc) (job : NormalizedJob)
    → name_issue job.name ≡ none
    → Accepted job
    → create none prefix (document doc) job ≡ (
      document (record {
        crons = sort_crons (doc.crons ++ entries_at (prefix ++ job.name) job.schedules);
        other = doc.other;
      }),
      none,
    )
unfolding create with_doc write
create-document prefix doc job n a =
    let e = add_crons-entries (prefix ++ job.name) job.schedules doc.crons a in
    rw (n, create, with_doc, ap (λ r. r.1) e, ap (λ r. r.0) e, write) refl

update-updated :
    (prefix : Text) (file : File) (job : NormalizedJob)
    → IsReadable file
    → name_issue job.name ≡ none
    → Accepted job
    → update none prefix file job ≡ (document (updated prefix (doc_of file) job), none)
unfolding update updated
update-updated prefix file job h n a =
    let e = delete-document prefix file job.name h n in
    rw (ap (λ r. r.1) e, update, ap (λ r. r.0) e)
      (create-document prefix
        (record {
          crons = sort_crons (without_path (prefix ++ job.name) (doc_of file).crons);
          other = (doc_of file).other;
        })
        job n a)

updated-In :
    (prefix : Text) (doc : Doc) (job : NormalizedJob) (c : CronEntry)
    → In c (updated prefix doc job).crons ↔ (
        (In c doc.crons × (c.path ≢ prefix ++ job.name))
        ⊎ ((c.path ≡ prefix ++ job.name) × In c.schedule job.schedules))
unfolding updated
updated-In prefix doc job c = (forth, back)
  where
    forth :
        In c (
          sort_crons (
            sort_crons (without_path (prefix ++ job.name) doc.crons)
            ++ entries_at (prefix ++ job.name) job.schedules))
        → (In c doc.crons × (c.path ≢ prefix ++ job.name))
          ⊎ ((c.path ≡ prefix ++ job.name) × In c.schedule job.schedules)
    forth h =
        elim (In-append c (sort_crons (without_path (prefix ++ job.name) doc.crons))
          (entries_at (prefix ++ job.name) job.schedules) ((In-sort_crons c _).0 h)) [
            | inl i ↦ inl (
                without_path-In (prefix ++ job.name) c doc.crons
                  ((In-sort_crons c (without_path (prefix ++ job.name) doc.crons)).0 i))
            | inr i ↦ inr ((entries_at-In (prefix ++ job.name) c job.schedules).0 i)
          ]

    back :
        (In c doc.crons × (c.path ≢ prefix ++ job.name))
          ⊎ ((c.path ≡ prefix ++ job.name) × In c.schedule job.schedules)
        → In c (
            sort_crons (
              sort_crons (without_path (prefix ++ job.name) doc.crons)
              ++ entries_at (prefix ++ job.name) job.schedules))
    back (inl (i, ne)) = (In-sort_crons c _).1 (
        In-append_left c (sort_crons (without_path (prefix ++ job.name) doc.crons)) _ (
          (In-sort_crons c (without_path (prefix ++ job.name) doc.crons)).1
            (In-without_path (prefix ++ job.name) c doc.crons i ne)))
    back (inr e) = (In-sort_crons c _).1 (
        In-append_right c (sort_crons (without_path (prefix ++ job.name) doc.crons)) _
          ((entries_at-In (prefix ++ job.name) c job.schedules).1 e))

-- `Update` of a job with a valid name and schedules that Vercel takes, on a file that is read and
-- written: it succeeds, the entries at the job's path are those of its schedules, every entry at
-- another path is kept, no other is added, and the other keys of the file are unchanged.
pub update-entries :
    (prefix : Text) (file : File) (job : NormalizedJob)
    → IsReadable file
    → name_issue job.name ≡ none
    → Accepted job
    → ((update none prefix file job).1 ≡ none)
      × ((doc_of (update none prefix file job).0).other ≡ (doc_of file).other)
      × ((c : CronEntry)
          → In c (doc_of (update none prefix file job).0).crons ↔ (
              (In c (doc_of file).crons × (c.path ≢ prefix ++ job.name))
              ⊎ ((c.path ≡ prefix ++ job.name) × In c.schedule job.schedules)))
unfolding doc_of updated
update-entries prefix file job h n a =
    rw (update-updated prefix file job h n a) (refl, refl, updated-In prefix (doc_of file) job)
