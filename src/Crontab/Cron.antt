-- ===== src/Crontab/Cron.antt =====
-- go/internal/backends/crontab/cron.go: a schedule expression as five fields of classic cron.
-- `none` stands for `ok = false`.
use cronix.Prelude.Text.{Text, cut_prefix, trim_space, codes, equal, fields}
use cronix.Prelude.{
  ℕ, Option, Bool, none, ltb, if◌then◌else◌, ◌∷◌, ◌&&◌, ◌==◌, some, length, [], ◌%◌, ◌++◌, ◌||◌,
  suc,
}
use cronix.Prelude.Int.{ℤ, pos}
use cronix.Prelude.Text.Decimal.{parse_int, decimal}

-- The last byte, and what stands before it.
unfoldable pub unsnoc : Text → Option (Text × ℕ)
unsnoc [] = none
unsnoc (c ∷ cs) = elim (unsnoc cs) [ none ↦ some ([], c) | some (t, u) ↦ some (c ∷ t, u) ]

-- `num < 60 && 60%num == 0`, for a positive number
divides : ℕ → ℕ → Bool
divides whole num = ltb num whole && whole % num == 0

every_unit : ℕ → ℕ → Option Text
unfolding divides
every_unit unit num =
    if unit == b'm'
    then (if divides 60 num then some (codes "*/" ++ (decimal num ++ codes " * * * *")) else none)
    else if unit == b'h'
    then (if divides 24 num then some (codes "0 */" ++ (decimal num ++ codes " * * *")) else none)
    else none

every_count : ℕ → Option ℤ → Option Text
unfolding every_unit
every_count unit (some (pos (suc n))) = every_unit unit (suc n)
every_count unit _ = none

-- `translateEvery`: minutes that divide 60, or hours that divide 24
unfoldable pub translate_every : Text → Option Text
unfolding every_count unsnoc
translate_every rest =
    if ltb (length rest) 2
    then none
    else elim (unsnoc rest) [ none ↦ none | some (num, unit) ↦ every_count unit (parse_int num) ]

-- What is left when no name matches.
translate_other : Text → Option Text
unfolding translate_every
translate_other t = elim (cut_prefix t (codes "@every")) [
  | some rest ↦ translate_every (trim_space rest)
  | none ↦ if length (fields t) == 5 then some t else none
]

unfoldable pub translate : Text → Option Text
unfolding translate_other
translate s =
    let t = trim_space s in
    if equal t (codes "@hourly")
    then some (codes "0 * * * *")
    else if equal t (codes "@daily") || equal t (codes "@midnight")
    then some (codes "0 0 * * *")
    else if equal t (codes "@weekly")
    then some (codes "0 0 * * 0")
    else if equal t (codes "@monthly")
    then some (codes "0 0 1 * *")
    else if equal t (codes "@yearly") || equal t (codes "@annually")
    then some (codes "0 0 1 1 *")
    else translate_other t
