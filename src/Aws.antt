-- ===== src/Aws.antt =====
-- go/internal/backends/aws/cron.go: a schedule expression as an EventBridge `cron(...)`
-- expression. `none` stands for an error.
pub mod Description
pub mod Scheduler
use cronix.Prelude.{[], ◌∷◌, ℕ, List, Option, some, if◌then◌else◌, ◌++◌, ◌&&◌, ◌||◌, not, none}
use cronix.Prelude.Text.{Text, equal, codes, trim_space, join, cut_prefix, fields}

-- The fields of the days, of which one becomes `?`.
unfoldable pub aws_days : Text → Text → Text × Text
aws_days dom dow =
    let any_dom = equal dom (codes "*") in
    let any_dow = equal dow (codes "*") in
    if any_dow && not any_dom
    then (dom, codes "?")
    else if any_dom && not any_dow
    then (codes "?", dow)
    else if any_dom && any_dow
    then (dom, codes "?")
    else (dom, codes "?")

-- `cron(min hr dom mon dow *)`
unfoldable pub aws_fields : List Text → Option Text
unfolding aws_days
aws_fields (min ∷ hr ∷ dom ∷ mon ∷ dow ∷ []) =
    let (dom', dow') = aws_days dom dow in
    some (
      codes "cron("
      ++ (join (codes " ") (min ∷ hr ∷ dom' ∷ mon ∷ dow' ∷ codes "*" ∷ []) ++ codes ")"))
aws_fields _ = none

unfoldable pub translate_aws_cron : Text → Option Text
unfolding aws_fields
translate_aws_cron s =
    let t = trim_space s in
    if equal t (codes "@hourly")
    then some (codes "cron(0 * * * ? *)")
    else if equal t (codes "@daily") || equal t (codes "@midnight")
    then some (codes "cron(0 0 * * ? *)")
    else if equal t (codes "@weekly")
    then some (codes "cron(0 0 ? * SUN *)")
    else if equal t (codes "@monthly")
    then some (codes "cron(0 0 1 * ? *)")
    else if equal t (codes "@yearly") || equal t (codes "@annually")
    then some (codes "cron(0 0 1 1 ? *)")
    else elim (cut_prefix t (codes "@every")) [ some rest ↦ none | none ↦ aws_fields (fields t) ]
