-- ===== src/Systemd/Calendar.antt =====
-- go/internal/backends/systemd/cron.go: a schedule expression as an `OnCalendar=` value. `none`
-- stands for an error.
use cronix.Prelude.{List, Option, if◌then◌else◌, ◌∷◌, some, ◌++◌, none, [], ◌||◌}
use cronix.Prelude.Text.{Text, equal, split, trim_space, codes, join, cut_prefix, fields}

-- `dayNames[d]`
unfoldable pub day_name : Text → Option Text
day_name d =
    if equal d (codes "0") || equal d (codes "7")
    then some (codes "Sun")
    else if equal d (codes "1")
    then some (codes "Mon")
    else if equal d (codes "2")
    then some (codes "Tue")
    else if equal d (codes "3")
    then some (codes "Wed")
    else if equal d (codes "4")
    then some (codes "Thu")
    else if equal d (codes "5")
    then some (codes "Fri")
    else if equal d (codes "6")
    then some (codes "Sat")
    else none

-- A part with one hyphen between two days.
unfoldable pub day_range : List Text → Option Text
unfolding day_name
day_range (a ∷ b ∷ []) = elim (day_name a) [
  | none ↦ none
  | some x ↦ elim (day_name b) [ none ↦ none | some y ↦ some (x ++ (codes ".." ++ y)) ]
]
day_range _ = none

unfoldable pub day_part : Text → Option Text
unfolding day_range
day_part p = elim (day_range (split b'-' p)) [ some r ↦ some r | none ↦ day_name p ]

-- The loop over the parts: a part that is no day ends it with nothing.
unfoldable pub day_parts : List Text → Option (List Text)
unfolding day_part
day_parts [] = some []
day_parts (p ∷ ps) = elim (day_part p) [
  | none ↦ none
  | some d ↦ elim (day_parts ps) [ none ↦ none | some ds ↦ some (d ∷ ds) ]
]

-- `translateDOW`
unfoldable pub translate_dow : Text → Text
unfolding day_parts
translate_dow dow =
    if equal dow (codes "*")
    then []
    else elim (day_parts (split b',' dow)) [ none ↦ [] | some ds ↦ join (codes ",") ds ]

abbrev day_then : Text → Text → Text
day_then [] rest = rest
day_then (c ∷ cs) rest = (c ∷ cs) ++ (b' ' ∷ rest)

-- `cronToOnCalendar`
unfoldable pub cron_to_on_calendar : List Text → Option Text
unfolding translate_dow
cron_to_on_calendar (min ∷ hour ∷ dom ∷ mon ∷ dow ∷ []) =
    let time =
      if equal hour (codes "*")
      then codes "*:" ++ (min ++ codes ":00")
      else hour ++ (b':' ∷ (min ++ codes ":00")) in
    let date = codes "*-" ++ (mon ++ (b'-' ∷ dom)) in
    some (day_then (translate_dow dow) (date ++ (b' ' ∷ time)))
cron_to_on_calendar _ = none

-- `translateOnCalendar`
unfoldable pub translate_on_calendar : Text → Option Text
unfolding cron_to_on_calendar
translate_on_calendar s =
    let t = trim_space s in
    if equal t (codes "@hourly")
    then some (codes "hourly")
    else if equal t (codes "@daily") || equal t (codes "@midnight")
    then some (codes "daily")
    else if equal t (codes "@weekly")
    then some (codes "weekly")
    else if equal t (codes "@monthly")
    then some (codes "monthly")
    else if equal t (codes "@yearly") || equal t (codes "@annually")
    then some (codes "yearly")
    else elim (cut_prefix t (codes "@every")) [
      | some rest ↦ some (codes "*-*-* " ++ trim_space rest)
      | none ↦ cron_to_on_calendar (fields t)
    ]
