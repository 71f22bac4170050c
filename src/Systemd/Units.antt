-- ===== src/Systemd/Units.antt =====
-- go/internal/backends/systemd: render.go with the templates of the units, and parse.go, which reads
-- the annotations of a unit.
use cronix.Prelude.{ℕ, List, ◌∷◌, ◌++◌, Option, [], get_elem?, some, if◌then◌else◌, none, all, ◌+◌}
use cronix.Prelude.Text.{Text, codes, cut_prefix, trim_space, split, equal, is_digit}
use cronix.Prelude.Int.{ℤ, int64, sub_ℕ, pos_part, pos, neg_part}
use cronix.Manifest.{NormalizedJob}
use cronix.Prelude.Text.Decimal.{decimal, parse_int}
use cronix.Policy.{schedule_name, drift_spec_edited}
use cronix.Backends.{ManagedEntry}
use cronix.Auth.{show_int}
use cronix.Systemd.Calendar.{translate_on_calendar}

pub record RenderVars : Type 0 where
  pub app : Text
  pub job : Text
  pub index : ℕ
  pub unit_name : Text
  pub on_calendar : Text
  pub hash : Text
  pub trigger_bin : Text
  pub runtime_max_sec : ℤ

-- Lines, each with a line feed.
unfoldable pub unlines : List Text → Text
unlines [] = []
unlines (l ∷ ls) = l ++ (10 ∷ unlines ls)

-- `key=value`
abbrev pub annotation : Text → Text → Text
annotation key value = key ++ (b'=' ∷ value)

-- `{{- if .Hash}} ... {{- end}}`
abbrev pub hash_lines : Text → List Text
hash_lines [] = []
hash_lines (c ∷ cs) = annotation (codes "X-Cronix-Hash") (c ∷ cs) ∷ []

abbrev pub unit_title : Text → RenderVars → Text
unit_title kind v =
    codes "Description="
    ++ (kind ++ (v.app ++ (b'.' ∷ (v.job ++ (codes " (idx=" ++ (decimal v.index ++ codes ")"))))))

abbrev pub timer_end : RenderVars → List Text
timer_end v =
    annotation (codes "Unit") (v.unit_name ++ codes ".service")
    ∷ codes "Persistent=true"
    ∷ []
    ∷ codes "[Install]"
    ∷ codes "WantedBy=timers.target"
    ∷ []

abbrev pub timer_section : RenderVars → List Text
timer_section v = [] ∷ codes "[Timer]" ∷ annotation (codes "OnCalendar") v.on_calendar ∷ timer_end v

-- templates/timer.tmpl
unfoldable pub timer_lines : RenderVars → List Text
timer_lines v =
    codes "[Unit]"
    ∷ unit_title (codes "cronix timer: ") v
    ∷ annotation (codes "PartOf") (v.unit_name ++ codes ".service")
    ∷ annotation (codes "X-Cronix-App") v.app
    ∷ annotation (codes "X-Cronix-Job") v.job
    ∷ annotation (codes "X-Cronix-Index") (decimal v.index)
    ∷ annotation (codes "X-Cronix-OnCalendar") v.on_calendar
    ∷ (hash_lines v.hash ++ timer_section v)

-- templates/service.tmpl
unfoldable pub service_lines : RenderVars → List Text
service_lines v =
    codes "[Unit]"
    ∷ unit_title (codes "cronix: ") v
    ∷ codes "After=network-online.target"
    ∷ annotation (codes "X-Cronix-App") v.app
    ∷ annotation (codes "X-Cronix-Job") v.job
    ∷ annotation (codes "X-Cronix-Index") (decimal v.index)
    ∷ (hash_lines v.hash
        ++ ([]
            ∷ codes "[Service]"
            ∷ codes "Type=oneshot"
            ∷ annotation (codes "ExecStart")
                (v.trigger_bin ++ (codes " trigger " ++ (v.app ++ (b'.' ∷ v.job))))
            ∷ annotation (codes "RuntimeMaxSec") (show_int v.runtime_max_sec)
            ∷ []))

-- `job.Policy.TimeoutSeconds + timeoutHeadroomSeconds`
unfoldable pub with_headroom : ℤ → ℤ
with_headroom t = int64 (sub_ℕ (pos_part t + 30) (neg_part t))

unfoldable pub vars_of : Text → Text → NormalizedJob → ℕ → Text → Text → RenderVars
unfolding with_headroom
vars_of trigger_bin app job idx hash calendar = record {
  app = app;
  job = job.name;
  index = idx;
  unit_name = schedule_name app job.name idx;
  on_calendar = calendar;
  hash = hash;
  trigger_bin = trigger_bin;
  runtime_max_sec = with_headroom job.policy.timeout_seconds;
}

-- `renderUnitsWithHash`: the contents of the timer and of the service
unfoldable pub render_units : Text → Text → NormalizedJob → ℕ → Text → Option (Text × Text)
unfolding timer_lines service_lines unlines vars_of
render_units trigger_bin app job idx hash = elim (get_elem? job.schedules idx) [
  | none ↦ none
  | some s ↦ elim (translate_on_calendar s) [
    | none ↦ none
    | some calendar ↦
        let v = vars_of trigger_bin app job idx hash calendar in
        some (unlines (timer_lines v), unlines (service_lines v))
  ]
]

-- `^key=(.+)$` at a line
unfoldable pub line_match : Text → Text → Option Text
line_match key line = elim (cut_prefix line (key ++ codes "=")) [
  | none ↦ none
  | some [] ↦ none
  | some (c ∷ cs) ↦ some (c ∷ cs)
]

-- `^key=(\d+)$` at a line
unfoldable pub line_digits : Text → Text → Option Text
unfolding line_match
line_digits key line = elim (line_match key line) [
  | none ↦ none
  | some value ↦ if all is_digit value then some value else none
]

-- The group of the first line that matches, or the empty text.
unfoldable pub first_match : (Text → Option Text) → List Text → Text
first_match admits [] = []
first_match admits (l ∷ ls) = elim (admits l) [
  | some value ↦ trim_space value
  | none ↦ first_match admits ls
]

unfoldable pub parse_fields : Text → Text → Text → Text → Option ManagedEntry
parse_fields [] _ _ hash = none
parse_fields _ [] _ hash = none
parse_fields _ _ [] hash = none
parse_fields (a ∷ app) (j ∷ job) (i ∷ idx) hash = elim (parse_int (i ∷ idx)) [
  | some (pos n) ↦ some (record { app = a ∷ app; job = j ∷ job; hash = hash; index = n; raw = [] })
  | _ ↦ none
]

-- `parseUnit`
unfoldable pub parse_unit : Text → Option ManagedEntry
unfolding first_match line_match line_digits parse_fields
parse_unit contents =
    let lines = split 10 contents in
    parse_fields (first_match (line_match (codes "X-Cronix-App")) lines)
      (first_match (line_match (codes "X-Cronix-Job")) lines)
      (first_match (line_digits (codes "X-Cronix-Index")) lines)
      (first_match (line_match (codes "X-Cronix-Hash")) lines)

abbrev pub drift_hash : Text → Text → Text → Text
drift_hash [] actual hash = hash
drift_hash (w ∷ want) [] hash = hash
drift_hash (w ∷ want) (a ∷ actual) hash =
    if equal (a ∷ actual) (w ∷ want) then hash else drift_spec_edited

-- The entry of one timer unit in `List`; a unit without the annotations has none.
unfoldable pub list_entry : Text → Text → Option ManagedEntry
unfolding first_match line_match parse_unit
list_entry path contents = elim (parse_unit contents) [
  | none ↦ none
  | some entry ↦
      let lines = split 10 contents in
      some (record entry {
        hash =
            drift_hash (first_match (line_match (codes "X-Cronix-OnCalendar")) lines)
              (first_match (line_match (codes "OnCalendar")) lines) entry.hash;
        raw = path;
      })
]
