-- ===== src/Systemd/Host/Deletes.antt =====
-- go/internal/backends/systemd/backend.go: which timers `Delete` removes.
use mathlib.Core.List.{reverse-append, reverse, reverse-reverse}
use cronix.Prelude.{
  ℕ, ◌++◌, last, ◌≡◌, ◌∷◌, some, arith, [], ◌≢◌, false, none, sym, Option-cases, append_assoc, refl,
  ◌∙◌, inl, ap, inr, Bool-cases, true, List, All,
}
use cronix.Prelude.Text.{cut_prefix, Text, equal, codes, equal_iff, cut_prefix-append}
use cronix.Systemd.Host.{
  cut_suffix, service_of, timer_suffix, job_prefix, glob, reload_if, delete, Machine, run,
  with_names, Host, name_issue, matches, delete_units,
}
use cronix.Policy.{schedule_name, schedule_prefix}
use cronix.Prelude.Text.Split.{Without}
use cronix.Prelude.Text.Decimal.{decimal}
use cronix.Policy.Names.{decimal-Without}
use cronix.Systemd.Host.Effects.{
  Calm, remove_units, contents_of, delete_units-files, matches_complete, remove_units-own,
  remove_units-none, remove_units-other, matches-glob, and_then-none,
}

cut_prefix-cancel : (p x y : Text) → cut_prefix (p ++ x) (p ++ y) ≡ cut_prefix x y
unfolding cut_prefix
cut_prefix-cancel [] x y = refl
cut_prefix-cancel (c ∷ p) x y = ground (arith, cut_prefix-cancel p x y)

cut_suffix-append : (a suffix : Text) → cut_suffix (a ++ suffix) suffix ≡ some a
unfolding cut_suffix
cut_suffix-append a suffix =
    rw (reverse-append a suffix, cut_suffix, cut_prefix-append (reverse suffix) (reverse a))
      (ap some (reverse-reverse a))

last-concat : (d : ℕ) (a : Text) (x : ℕ) → last d (a ++ (x ∷ [])) ≡ x
last-concat d [] x = refl
last-concat d (c ∷ a) x = last-concat c a x

-- No name of a service is a name of a timer.
services-are_no_timers : (a b : Text) → (a ++ codes ".service") ≢ (b ++ timer_suffix)
services-are_no_timers a b e = absurd (
    ends (
      sym (last-concat 0 (a ++ codes ".servic") b'e')
      ∙ (ap (last 0) (
            append_assoc a (codes ".servic") (b'e' ∷ [])
            ∙ (e ∙ sym (append_assoc b (codes ".time") (b'r' ∷ []))))
          ∙ last-concat 0 (b ++ codes ".time") b'r')))
  where
    ends : ◌≡◌ {A = ℕ} b'e' b'r' → ⊥
    ends p = omega arith

service_of-ne : (t b : Text) → equal (service_of t) (b ++ timer_suffix) ≡ false
unfolding service_of
service_of-ne t b = elim (Bool-cases (equal (service_of t) (b ++ timer_suffix))) [
  | inr e ↦ e
  | inl e ↦ absurd (clash ((equal_iff (service_of t) (b ++ timer_suffix)).0 e))
]
  where
    clash : service_of t ≢ (b ++ timer_suffix)
    clash p = elim (Option-cases (cut_suffix t timer_suffix)) [
      | inl e ↦ services-are_no_timers t b (rw (e, service_of) at p)
      | inr (stem, e) ↦ services-are_no_timers stem b (rw (e, service_of) at p)
    ]

cut_prefix-Without : (t b : Text) → Without b'-' t → cut_prefix t (b ++ codes "-") ≡ none
unfolding cut_prefix
cut_prefix-Without [] [] h = refl
cut_prefix-Without [] (d ∷ b) h = refl
cut_prefix-Without (c ∷ t) [] h = ground arith
cut_prefix-Without (c ∷ t) (d ∷ b) h = ground (arith, cut_prefix-Without t b)

-- What follows the hyphen behind a job's name does not matter to a longer name.
cut_prefix-job :
    (a b t : Text)
    → Without b'-' t
    → cut_prefix (a ++ codes "-") (b ++ codes "-") ≡ none
    → cut_prefix (a ++ (b'-' ∷ t)) (b ++ codes "-") ≡ none
unfolding cut_prefix
cut_prefix-job [] [] t h e = ground arith
cut_prefix-job [] (d ∷ b) t h e = ground (arith, cut_prefix-Without t b)
cut_prefix-job (c ∷ a) [] t h e = ground arith
cut_prefix-job (c ∷ a) (d ∷ b) t h e = ground (arith, cut_prefix-job a b t)

abbrev pub timer_name : Text → Text → ℕ → Text
timer_name app job i = schedule_name app job i ++ timer_suffix

timer_name-parts :
    (app job : Text) (i : ℕ)
    → timer_name app job i
      ≡ schedule_prefix ++ (app ++ (b'-' ∷ (job ++ (b'-' ∷ (decimal i ++ timer_suffix)))))
unfolding schedule_name
timer_name-parts app job i =
    append_assoc schedule_prefix _ timer_suffix
    ∙ ap (λ t. schedule_prefix ++ t)
        (append_assoc app _ timer_suffix
          ∙ ap (λ t. app ++ (b'-' ∷ t)) (append_assoc job (b'-' ∷ decimal i) timer_suffix))

own_parts :
    (app job t : Text)
    → schedule_prefix ++ (app ++ (b'-' ∷ (job ++ (b'-' ∷ t)))) ≡ job_prefix app job ++ t
own_parts app job t = sym (
    append_assoc schedule_prefix _ t
    ∙ ap (λ x. schedule_prefix ++ x)
        (append_assoc app _ t ∙ ap (λ x. app ++ (b'-' ∷ x)) (append_assoc job (codes "-") t)))

glob-own : (app job : Text) (i : ℕ) → glob (job_prefix app job) (timer_name app job i) ≡ true
unfolding glob
glob-own app job i =
    rw
      (
        timer_name-parts app job i ∙ own_parts app job (decimal i ++ timer_suffix),
        glob,
        cut_prefix-append (job_prefix app job) (decimal i ++ timer_suffix),
        cut_suffix-append (decimal i) timer_suffix,
      )
      refl

Without-suffix : (t : Text) → Without b'-' t → Without b'-' (t ++ timer_suffix)
Without-suffix [] h = refl
Without-suffix (c ∷ t) h = ground (arith, Without-suffix t)

glob-other :
    (app job job' : Text) (i : ℕ)
    → cut_prefix (job' ++ codes "-") (job ++ codes "-") ≡ none
    → glob (job_prefix app job) (timer_name app job' i) ≡ false
unfolding glob
glob-other app job job' i h =
    rw
      (
        timer_name-parts app job' i,
        glob,
        cut_prefix-cancel schedule_prefix
            (app ++ (b'-' ∷ (job' ++ (b'-' ∷ (decimal i ++ timer_suffix)))))
            (app ++ (b'-' ∷ (job ++ codes "-"))),
        cut_prefix-cancel app (b'-' ∷ (job' ++ (b'-' ∷ (decimal i ++ timer_suffix))))
            (b'-' ∷ (job ++ codes "-")),
        cut_prefix-cancel (codes "-") (job' ++ (b'-' ∷ (decimal i ++ timer_suffix)))
            (job ++ codes "-"),
        cut_prefix-job job' job (decimal i ++ timer_suffix)
            (Without-suffix (decimal i) (decimal-Without i)) h,
      )
      refl

reload_if-files :
    (m : Machine) (ts : List Text) (h : Host)
    → Calm m
    → ((reload_if m ts h).1 ≡ none) × ((reload_if m ts h).0.files ≡ h.files)
unfolding reload_if run
reload_if-files m [] h calm = (refl, refl)
reload_if-files m (t ∷ ts) h calm = rw (calm.runs (codes "daemon-reload" ∷ []), run) (refl, refl)

delete-files :
    (m : Machine) (app job : Text) (h : Host)
    → Calm m
    → name_issue app ≡ none
    → name_issue job ≡ none
    → ((delete m app job h).1 ≡ none)
      × ((delete m app job h).0.files ≡ remove_units (matches (job_prefix app job) h.files) h.files)
unfolding delete with_names
delete-files m app job h calm a j =
    let ts = matches (job_prefix app job) h.files in
    let (fine, files) = delete_units-files m ts h calm in
    let (reloaded, same) = reload_if-files m ts (delete_units m ts h).0 calm in
    rw
      (a, delete, with_names, j, and_then-none (delete_units m ts h) (λ h1. reload_if m ts h1) fine)
      (reloaded, same ∙ files)

unmatched :
    (prefix k stem : Text)
    → k ≡ stem ++ timer_suffix
    → glob prefix k ≡ false
    → (ts : List Text) → All (λ t. glob prefix t ≡ true) ts
    → All (λ t. (equal t k ≡ false) × (equal (service_of t) k ≡ false)) ts
unmatched prefix k stem e out [] h = tt
unmatched prefix k stem e out (t ∷ ts) h = (
  (
    elim (Bool-cases (equal t k)) [
      | inr ne ↦ ne
      | inl same ↦ absurd (cc (sym h.0 ∙ (ap (glob prefix) ((equal_iff t k).0 same) ∙ out)))
    ],
    rw e (service_of-ne t stem),
  ),
  unmatched prefix k stem e out ts h.1,
)

-- `Delete` of a job with a valid name and app id, when no call of the operating system fails: it
-- succeeds, no timer of the job is left, and a timer of another job of the app keeps its contents,
-- unless the other name is this one with a hyphen and more behind it.
pub delete-timers :
    (m : Machine) (app job : Text) (h : Host)
    → Calm m
    → name_issue app ≡ none
    → name_issue job ≡ none
    → ((delete m app job h).1 ≡ none)
      × (((i : ℕ) → contents_of (timer_name app job i) (delete m app job h).0.files ≡ none)
          × ((job' : Text) (i : ℕ)
              → cut_prefix (job' ++ codes "-") (job ++ codes "-") ≡ none
              → contents_of (timer_name app job' i) (delete m app job h).0.files
                ≡ contents_of (timer_name app job' i) h.files))
delete-timers m app job h calm a j =
    let (fine, files) = delete-files m app job h calm a j in
    (fine, (λ i. rw files (own i), λ job' i e. rw files (other job' i e)))
  where
    own :
        (i : ℕ)
        → contents_of
            (timer_name app job i)
            (remove_units (matches (job_prefix app job) h.files) h.files)
          ≡ none
    own i =
        elim (matches_complete (job_prefix app job) (timer_name app job i) h.files
          (glob-own app job i)) [
            | inl found ↦ remove_units-own (timer_name app job i) _ h.files found
            | inr never ↦ remove_units-none (timer_name app job i) _ h.files never
          ]

    other :
        (job' : Text) (i : ℕ)
        → cut_prefix (job' ++ codes "-") (job ++ codes "-") ≡ none
        → contents_of
            (timer_name app job' i)
            (remove_units (matches (job_prefix app job) h.files) h.files)
          ≡ contents_of (timer_name app job' i) h.files
    other job' i e = remove_units-other (timer_name app job' i) _ h.files (
        unmatched (job_prefix app job) (timer_name app job' i) (schedule_name app job' i) refl
          (glob-other app job job' i e) _ (matches-glob (job_prefix app job) h.files))
