-- ===== src/History/Runs.antt =====
-- The entry of a run, read off the records of that run.
use cronix.Prelude.{
  [], ◌∷◌, Option, ◌≡◌, List, if◌then◌else◌, [], some, none, arith, ◌∙◌, Bool-cases, inl, inr, refl,
  ◌++◌, true, All, ◌≢◌, false,
}
use cronix.History.{
  HistoryEntry, Record, Runs, observe, find_run, put_run, add_record, collect, ShimEvent, Instant,
}
use cronix.Prelude.Text.{Text, equal, equal_iff, equal_refl}

-- The records of one run, folded into its entry.
unfoldable pub entry_of :
    Text → Text → Text → Text → Option HistoryEntry → List Record → Option HistoryEntry
entry_of app job source id he [] = he
entry_of app job source id he ((ev, when, status, terminal) ∷ rs) =
    if equal ev.run_id id
    then entry_of app job source id (some (observe app job source he ev when (status, terminal))) rs
    else entry_of app job source id he rs

find_run-put_run :
    (id k : Text) (he : HistoryEntry) (runs : Runs)
    → find_run id (put_run k he runs) ≡ (if equal k id then some he else find_run id runs)
unfolding find_run put_run
find_run-put_run id k he [] = ground arith
find_run-put_run id k he ((j, old) ∷ runs) =
    ground (arith, find_run-put_run id k he runs, equal_iff j k, equal_iff j id, equal_iff k id)

find_run-collect :
    (app job source id : Text) (runs : Runs) (rs : List Record)
    → find_run id (collect app job source runs rs)
      ≡ entry_of app job source id (find_run id runs) rs
unfolding collect entry_of add_record
find_run-collect app job source id runs [] = refl
find_run-collect app job source id runs ((ev, when, status, terminal) ∷ rs) =
    find_run-collect app job source id (put_run ev.run_id he runs) rs
    ∙ rw (find_run-put_run id ev.run_id he runs) (elim (Bool-cases (equal ev.run_id id)) [
      | inl same ↦ let e : ev.run_id ≡ id = (equal_iff ev.run_id id).0 same in rw (same, e) refl
      | inr other ↦ rw other refl
    ])
  where
    he : HistoryEntry
    he = observe app job source (find_run ev.run_id runs) ev when (status, terminal)

-- The entry is made of the records of the run alone.
find_run-entry_of :
    (app job source id : Text) (rs : List Record)
    → find_run id (collect app job source [] rs) ≡ entry_of app job source id none rs
unfolding find_run
find_run-entry_of app job source id rs = find_run-collect app job source id [] rs

entry_of-append :
    (app job source id : Text) (xs ys : List Record) (he : Option HistoryEntry)
    → entry_of app job source id he (xs ++ ys)
      ≡ entry_of app job source id (entry_of app job source id he xs) ys
unfolding entry_of
entry_of-append app job source id [] ys he = refl
entry_of-append app job source id ((ev, when, status, terminal) ∷ xs) ys he =
    elim (Bool-cases (equal ev.run_id id)) [
      | inl same ↦ rw same (entry_of-append app job source id xs ys _)
      | inr other ↦ rw other (entry_of-append app job source id xs ys he)
    ]

-- A record that does not end the run.
abbrev pub IsOpen : Text → Record → Type 0
IsOpen id (ev, when, status, terminal) = terminal ≡ true → ev.run_id ≢ id

entry_of-open :
    (app job source id : Text) (he : HistoryEntry) (rs : List Record)
    → All (IsOpen id) rs
    → entry_of app job source id (some he) rs ≡ some he
unfolding entry_of observe
entry_of-open app job source id he [] h = refl
entry_of-open app job source id he ((ev, when, status, true) ∷ rs) h =
    elim (Bool-cases (equal ev.run_id id)) [
      | inl same ↦ absurd (h.0 refl ((equal_iff ev.run_id id).0 same))
      | inr other ↦ rw other (entry_of-open app job source id he rs h.1)
    ]
entry_of-open app job source id he ((ev, when, status, false) ∷ rs) h =
    elim (Bool-cases (equal ev.run_id id)) [
      | inl same ↦ rw same (entry_of-open app job source id he rs h.1)
      | inr other ↦ rw other (entry_of-open app job source id he rs h.1)
    ]

-- What a terminal record makes of the entry of its run.
abbrev pub Ended : Text → Text → Text → ShimEvent → Instant → Text → Instant → HistoryEntry
Ended app job source ev when status t = record {
  app = app;
  job = job;
  run_id = ev.run_id;
  attempt = ev.attempt;
  started_at = t;
  finished_at = when;
  status = status;
  source = source;
}

observe-terminal :
    (app job source : Text) (o : Option HistoryEntry) (ev : ShimEvent) (when : Instant)
    (status : Text)
    → (t : Instant) × (observe app job source o ev when (status, true)
        ≡ Ended app job source ev when status t)
unfolding observe
observe-terminal app job source none ev when status = (when, refl)
observe-terminal app job source (some he) ev when status = (_, refl)

-- In whatever order the records of several runs come: the entry of a run that `FoldShimLogs`
-- collects has the status, the attempt and the end of the last terminal record of that run,
-- whatever non-terminal records of it follow.
pub find_run-last :
    (app job source : Text) (before after : List Record) (ev : ShimEvent) (when : Instant)
    (status : Text)
    → All (IsOpen ev.run_id) after
    → (t : Instant) × (find_run ev.run_id
          (collect app job source [] (before ++ (ev, when, status, true) ∷ after))
        ≡ some (Ended app job source ev when status t))
unfolding entry_of
find_run-last app job source before after ev when status h =
    let so_far = entry_of app job source ev.run_id none before in
    let (t, e) = observe-terminal app job source so_far ev when status in
    (
      t,
      find_run-entry_of app job source ev.run_id (before ++ (ev, when, status, true) ∷ after)
          ∙ (entry_of-append app job source ev.run_id before _ none
              ∙ rw (equal_refl ev.run_id, e)
                  (entry_of-open app job source ev.run_id (Ended app job source ev when status t)
                    after h)),
    )
