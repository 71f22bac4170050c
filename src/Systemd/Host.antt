-- ===== src/Systemd/Host.antt =====
-- go/internal/backends/systemd/backend.go: the operations of the backend on the unit directory and
-- `systemctl`. Contents are held by name, in the order of the names; the directory's own path has
-- no character that `filepath.Glob` reads specially. An error's text leaves out the wrapped error.
pub mod Effects
pub mod Deletes
use cronix.Prelude.{
  ℕ, List, Option, some, ◌∷◌, Bool, ◌++◌, none, if◌then◌else◌, false, [], true, ltb, not, suc,
  length, all, ◌||◌, ◌==◌,
}
use cronix.Prelude.Int.{pos}
use cronix.Prelude.Text.{Text, codes, cut_prefix, equal, less, is_lower, is_digit}
use cronix.Systemd.Units.{list_entry, render_units}
use cronix.Backends.{Listing, listed, list_error}
use cronix.Manifest.{NormalizedJob}
use cronix.Policy.{schedule_prefix, schedule_name, hash}
use mathlib.Core.List.{reverse}
use cronix.Systemd.Calendar.{translate_on_calendar}

pub record Host : Type 0 where
  pub files : List (Text × Text)
  pub commands : List (List Text)

-- Which calls of the operating system fail, with the error.
pub record Machine : Type 0 where
  pub systemctl : List Text → Option Text
  pub mkdir : Option Text
  pub write : Text → Option Text
  pub read : Text → Option Text
  pub remove : Text → Option Text

abbrev pub Outcome : Type 0
Outcome = Host × Option Text

-- The early return of an error.
infixr 20 ◌and_then◌
abbrev pub ◌and_then◌ : Outcome → (Host → Outcome) → Outcome
(h, some err) and_then next = (h, some err)
(h, none) and_then next = next h

-- The directory's file of a name is replaced, or put in its place.
unfoldable pub put_file : Text → Text → List (Text × Text) → List (Text × Text)
put_file name contents [] = (name, contents) ∷ []
put_file name contents (f ∷ fs) =
    let rest = put_file name contents fs in
    if equal f.0 name
    then (name, contents) ∷ fs
    else if less name f.0
    then (name, contents) ∷ f ∷ fs
    else f ∷ rest

unfoldable pub remove_file : Text → List (Text × Text) → List (Text × Text)
remove_file name [] = []
remove_file name (f ∷ fs) =
    let rest = remove_file name fs in if equal f.0 name then rest else f ∷ rest

-- `x + suffix`, with a text before it
unfoldable pub cut_suffix : Text → Text → Option Text
cut_suffix t suffix = elim (cut_prefix (reverse t) (reverse suffix)) [
  | none ↦ none
  | some rest ↦ some (reverse rest)
]

abbrev pub timer_suffix : Text
timer_suffix = codes ".timer"

-- The pattern `prefix*.timer`
unfoldable pub glob : Text → Text → Bool
unfolding cut_suffix
glob prefix name = elim (cut_prefix name prefix) [
  | none ↦ false
  | some rest ↦ elim (cut_suffix rest timer_suffix) [ none ↦ false | some stem ↦ true ]
]

-- `filepath.Glob`
unfoldable pub matches : Text → List (Text × Text) → List Text
unfolding glob
matches prefix [] = []
matches prefix (f ∷ fs) =
    let rest = matches prefix fs in if glob prefix f.0 then f.0 ∷ rest else rest

unfoldable pub name_issue : Text → Option Text
name_issue [] = some (codes "name is empty")
name_issue (c ∷ cs) =
    if ltb 63 (length (c ∷ cs))
    then some (codes "name too long (max 63)")
    else if all (λ r. is_lower r || is_digit r || r == b'-') (c ∷ cs)
    then none
    else some (codes "name has invalid char")

abbrev pub job_prefix : Text → Text → Text
job_prefix app job = schedule_prefix ++ (app ++ (b'-' ∷ (job ++ codes "-")))

-- `strings.TrimSuffix(timer, ".timer") + ".service"`
unfoldable pub service_of : Text → Text
unfolding cut_suffix
service_of timer = elim (cut_suffix timer timer_suffix) [
  | none ↦ timer ++ codes ".service"
  | some stem ↦ stem ++ codes ".service"
]

module _ (m : Machine) where
  unfoldable pub run : List Text → Text → Host → Outcome
  run args what h =
      let h' = record h { commands = h.commands ++ args ∷ [] } in
      elim (m.systemctl args) [
        | none ↦ (h', none)
        | some err ↦ (h', some (codes "systemd: " ++ (what ++ (codes ": " ++ err))))
      ]

  -- `writeFile`
  unfoldable pub write_file : Text → Text → Host → Outcome
  unfolding put_file
  write_file name contents h = elim m.mkdir [
    | some err ↦ (h, some (codes "systemd: mkdir: " ++ err))
    | none ↦ elim (m.write name) [
      | some err ↦ (h, some (codes "systemd: write: " ++ err))
      | none ↦ (record h { files = put_file name contents h.files }, none)
    ]
  ]

  -- `os.Remove`; a file that does not exist is no error.
  unfoldable pub remove_unit : Text → Host → Outcome
  unfolding remove_file
  remove_unit name h = elim (m.remove name) [
    | some err ↦ (h, some (codes "systemd: remove: " ++ err))
    | none ↦ (record h { files = remove_file name h.files }, none)
  ]

  unfoldable list_files : Text → List (Text × Text) → Listing
  unfolding list_entry glob
  list_files unit_dir [] = listed []
  list_files unit_dir (f ∷ fs) =
      let rest = list_files unit_dir fs in
      if not (glob schedule_prefix f.0) then rest else elim (m.read f.0) [
        | some err ↦ list_error (codes "systemd: read: " ++ err)
        | none ↦ elim rest [
          | list_error err ↦ list_error err
          | listed es ↦ elim (list_entry (unit_dir ++ (b'/' ∷ f.0)) f.1) [
            | none ↦ listed es
            | some e ↦ listed (e ∷ es)
          ]
        ]
      ]

  -- `List`
  unfoldable pub list : Text → Host → Listing
  unfolding list_files
  list unit_dir h = list_files unit_dir h.files

  -- The first loop of `Create`, from schedule `i`.
  unfoldable pub create_files : Text → Text → NormalizedJob → ℕ → List Text → Host → Outcome
  unfolding write_file
  create_files trigger_bin app job i [] h = (h, none)
  create_files trigger_bin app job i (s ∷ ss) h =
      elim (render_units trigger_bin app job i (hash job i)) [
        | none ↦ (h, some (codes "systemd: cannot translate to OnCalendar="))
        | some (timer, service) ↦
            let unit = schedule_name app job.name i in
            write_file (unit ++ timer_suffix) timer h and_then (λ h1.
              write_file (unit ++ codes ".service") service h1
              and_then (λ h2. create_files trigger_bin app job (suc i) ss h2))
      ]

  unfoldable pub enable_units : Text → Text → ℕ → List Text → Host → Outcome
  unfolding run
  enable_units app job i [] h = (h, none)
  enable_units app job i (s ∷ ss) h =
      let unit = schedule_name app job i ++ timer_suffix in
      run (codes "enable" ∷ codes "--now" ∷ unit ∷ []) (codes "enable " ++ unit) h
      and_then (λ h1. enable_units app job (suc i) ss h1)

  abbrev pub daemon_reload : Host → Outcome
  daemon_reload = run (codes "daemon-reload" ∷ []) (codes "daemon-reload")

  -- The guards on the names.
  unfoldable pub with_names : Text → Text → Host → (Host → Outcome) → Outcome
  unfolding name_issue
  with_names app job h body = elim (name_issue app) [
    | some err ↦ (h, some (codes "systemd: app id: " ++ err))
    | none ↦ elim (name_issue job) [
      | some err ↦ (h, some (codes "systemd: job name: " ++ err))
      | none ↦ body h
    ]
  ]

  -- `Create`
  unfoldable pub create : Text → Text → NormalizedJob → Host → Outcome
  unfolding create_files enable_units run with_names
  create trigger_bin app job h = with_names app job.name h (λ h0.
      create_files trigger_bin app job 0 job.schedules h0 and_then (λ h1.
        daemon_reload h1 and_then (λ h2. enable_units app job.name 0 job.schedules h2)))

  -- The loop of `Delete` over the timers.
  unfoldable pub delete_units : List Text → Host → Outcome
  unfolding run remove_unit service_of
  delete_units [] h = (h, none)
  delete_units (timer ∷ timers) h =
      run (codes "disable" ∷ codes "--now" ∷ timer ∷ []) (codes "disable " ++ timer) h
      and_then (λ h1. remove_unit timer h1 and_then (λ h2.
          remove_unit (service_of timer) h2 and_then (λ h3. delete_units timers h3)))

  unfoldable pub reload_if : List Text → Host → Outcome
  unfolding run
  reload_if [] h = (h, none)
  reload_if (t ∷ ts) h = daemon_reload h

  -- `Delete`
  unfoldable pub delete : Text → Text → Host → Outcome
  unfolding delete_units matches with_names reload_if
  delete app job h = with_names app job h (λ h0.
      let timers = matches (job_prefix app job) h0.files in
      delete_units timers h0 and_then (λ h1. reload_if timers h1))

  -- `Update`
  unfoldable pub update : Text → Text → NormalizedJob → Host → Outcome
  unfolding delete create
  update trigger_bin app job h =
      delete app job.name h and_then (λ h1. create trigger_bin app job h1)

-- `Validate`: the positions of the schedules that systemd cannot express
unfoldable pub schedule_issues : ℕ → List Text → List ℕ
schedule_issues i [] = []
schedule_issues i (s ∷ ss) = elim (translate_on_calendar s) [
  | none ↦ i ∷ schedule_issues (suc i) ss
  | some calendar ↦ schedule_issues (suc i) ss
]
