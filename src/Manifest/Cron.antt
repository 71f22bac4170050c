-- ===== src/Manifest/Cron.antt =====
-- go/internal/manifest/cron.go: `validateSchedule`. The empty message says that a schedule is valid.
use cronix.Prelude.{
  ℕ, ◌||◌, not, Option, none, some, List, [], ◌∷◌, ◌++◌, ◌==◌, if◌then◌else◌, length, last,
  drop_last,
}
use cronix.Prelude.Int.{ℤ, pos, ltℤ, leℤ, mul64}
use cronix.Prelude.Text.{Text, codes, contains, trim_space, cut_prefix, fields}
use cronix.Prelude.Text.Decimal.{parse_int, decimal}
use cronix.Manifest.{Parsers}

abbrev pub shortcuts : List Text
shortcuts =
    codes "@hourly"
    ∷ codes "@daily"
    ∷ codes "@midnight"
    ∷ codes "@weekly"
    ∷ codes "@monthly"
    ∷ codes "@yearly"
    ∷ codes "@annually"
    ∷ []

-- The `switch unit` on a positive number of units, on `int`.
unfoldable pub every_seconds : ℕ → ℤ → Option ℤ
every_seconds unit (pos num) =
    if unit == b's' || unit == b'S'
    then some (pos num)
    else if unit == b'm' || unit == b'M'
    then some (mul64 (pos num) 60)
    else if unit == b'h' || unit == b'H'
    then some (mul64 (pos num) 3600)
    else none
every_seconds unit _ = none

check_floor : Option ℤ → Text
check_floor none = codes "@every duration unit must be s, m, or h"
check_floor (some seconds) =
    if ltℤ seconds (pos 60)
    then codes "@every duration must be at least 60 seconds (v1 resolution floor)"
    else []

check_count : ℕ → Option ℤ → Text
unfolding check_floor every_seconds
check_count unit none = codes "@every duration must be a positive integer"
check_count unit (some num) =
    if leℤ num (pos 0)
    then codes "@every duration must be a positive integer"
    else check_floor (every_seconds unit num)

-- The `@every` branch, on the text behind the prefix.
unfoldable pub check_every : Text → Text
unfolding check_count
check_every [] = codes "@every duration must be a positive integer with unit s|m|h"
check_every (c ∷ []) = codes "@every duration must be a positive integer with unit s|m|h"
check_every (c ∷ d ∷ cs) = check_count (last d cs) (parse_int (drop_last (c ∷ d ∷ cs)))

unfoldable pub cron_message : Option Text → Text
cron_message none = []
cron_message (some err) = codes "invalid cron expression: " ++ err

-- The five-field branch, on the trimmed text.
check_fields : Parsers → Text → Text
unfolding cron_message
check_fields ext t =
    if not (length (fields t) == 5)
    then codes "schedule must be 5 cron fields or a documented shortcut, got "
      ++ (decimal (length (fields t)) ++ codes " field(s)")
    else cron_message (ext.cron_error t)

check_trimmed : Parsers → Text → Text
unfolding check_every check_fields
check_trimmed ext t = if contains shortcuts t then [] else elim (cut_prefix t (codes "@every")) [
  | some rest ↦ check_every (trim_space rest)
  | none ↦ check_fields ext t
]

unfoldable pub validate_schedule : Parsers → Text → Text
unfolding check_trimmed
validate_schedule ext [] = codes "schedule must be a non-empty string"
validate_schedule ext (c ∷ cs) = check_trimmed ext (trim_space (c ∷ cs))
