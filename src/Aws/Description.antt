-- ===== src/Aws/Description.antt =====
-- go/internal/backends/aws: the description that marks a schedule as owned; `buildDescription` of
-- render.go and parse.go.
use cronix.Prelude.{
  ℕ, Option, List, ◌++◌, if◌then◌else◌, ◌∷◌, [], some, none, ◌≡◌, ◌==◌, ◌∙◌, ◌<◌, refl, ap,
}
use cronix.Prelude.Int.{pos, ℤ, negsuc}
use cronix.Prelude.Text.{Text, codes, equal, cut, cut_prefix, fields, cut_prefix-append}
use cronix.Prelude.Text.Decimal.{
  decimal, parse_int, parse_digits, parse_int-decimal, decimal-digits,
}
use cronix.Prelude.Text.Space.{Solid, Word, fields-space, fields-append, digits-Solid, fields-Solid}

abbrev pub description_prefix : Text
description_prefix = codes "cronix-managed"

-- `buildDescription`
unfoldable pub build_description : Text → Text → ℕ → Text → Text
build_description app job idx hash =
    description_prefix
    ++ (codes " app="
        ++ (app
            ++ (codes " job="
                ++ (job ++ (codes " idx=" ++ (decimal idx ++ (codes " hash=" ++ hash)))))))

pub record Described : Type 0 where
  pub app : Text
  pub job : Text
  pub hash : Text
  pub index : ℤ

-- The value of `strconv.Atoi` beside its error: 0, or the bound that was passed.
unfoldable pub atoi_failed : Text → ℤ
atoi_failed [] = pos 0
atoi_failed (c ∷ cs) =
    if c == b'-'
    then elim (parse_digits cs) [ none ↦ pos 0 | some n ↦ negsuc 9223372036854775807 ]
    else if c == b'+'
    then elim (parse_digits cs) [ none ↦ pos 0 | some n ↦ pos 9223372036854775807 ]
    else elim (parse_digits (c ∷ cs)) [ none ↦ pos 0 | some n ↦ pos 9223372036854775807 ]

-- `n, _ := strconv.Atoi(v)`
unfoldable pub atoi_value : Text → ℤ
unfolding atoi_failed
atoi_value t = elim (parse_int t) [ some n ↦ n | none ↦ atoi_failed t ]

-- The `switch` on the key of a field.
unfoldable pub set_field : Text → Text → Described → Described
unfolding atoi_value
set_field key value e =
    if equal key (codes "app")
    then record e { app = value }
    else if equal key (codes "job")
    then record e { job = value }
    else if equal key (codes "hash")
    then record e { hash = value }
    else if equal key (codes "idx")
    then record e { index = atoi_value value }
    else e

-- The loop over the fields; one without `=` is passed over.
unfoldable pub add_fields : List Text → Described → Described
unfolding set_field
add_fields [] e = e
add_fields (f ∷ fs) e = elim (cut b'=' f) [
  | none ↦ add_fields fs e
  | some (key, value) ↦ add_fields fs (set_field key value e)
]

abbrev pub no_entry : Described
no_entry = record { app = []; job = []; hash = []; index = pos 0 }

unfoldable owned : Described → Option Described
owned e = elim e.app [ [] ↦ none | c ∷ cs ↦ elim e.job [ [] ↦ none | j ∷ js ↦ some e ] ]

-- `parseDescription`
unfoldable pub parse_description : Text → Option Described
unfolding add_fields owned
parse_description s = elim (cut_prefix s description_prefix) [
  | none ↦ none
  | some rest ↦ owned (add_fields (fields rest) no_entry)
]

Word-Solid : (t : Text) → Word t → Solid t
Word-Solid [] h = refl
Word-Solid (c ∷ t) h = h

description_fields :
    (app job hash : Text) (idx : ℕ)
    → Solid app
    → Solid job
    → Solid hash
    → fields (
        codes " app="
        ++ (app
            ++ (codes " job="
                ++ (job ++ (codes " idx=" ++ (decimal idx ++ (codes " hash=" ++ hash)))))))
      ≡ (codes "app=" ++ app)
        ∷ (codes "job=" ++ job)
        ∷ (codes "idx=" ++ decimal idx)
        ∷ (codes "hash=" ++ hash)
        ∷ []
description_fields app job hash idx a j h =
    fields-space _
    ∙ (fields-append b'a' (codes "pp=" ++ app) _ a
        ∙ ap (λ r. (codes "app=" ++ app) ∷ r)
            (fields-append b'j' (codes "ob=" ++ job) _ j
              ∙ ap (λ r. (codes "job=" ++ job) ∷ r)
                  (fields-append b'i' (codes "dx=" ++ decimal idx) _
                      (digits-Solid (decimal idx) (decimal-digits idx))
                    ∙ ap (λ r. (codes "idx=" ++ decimal idx) ∷ r)
                        (fields-Solid b'h' (codes "ash=" ++ hash) h))))

owned-Word :
    (app job hash : Text) (n : ℤ)
    → Word app
    → Word job
    → owned (record { app = app; job = job; hash = hash; index = n })
      ≡ some (record { app = app; job = job; hash = hash; index = n })
unfolding owned
owned-Word [] job hash n a j = absurd a
owned-Word (c ∷ app) [] hash n a j = absurd j
owned-Word (c ∷ app) (d ∷ job) hash n a j = refl

pub atoi_value-decimal : (n : ℕ) → n < 9223372036854775808 → atoi_value (decimal n) ≡ pos n
unfolding atoi_value
atoi_value-decimal n h = rw (parse_int-decimal n h, atoi_value) refl

read_fields :
    (app job idx hash : Text)
    → add_fields
        ((codes "app=" ++ app)
          ∷ (codes "job=" ++ job)
          ∷ (codes "idx=" ++ idx)
          ∷ (codes "hash=" ++ hash)
          ∷ [])
        no_entry
      ≡ record { app = app; job = job; hash = hash; index = atoi_value idx }
unfolding add_fields set_field equal cut
read_fields app job idx hash = refl

-- The description of a schedule is read back: its app, job, hash and index, where no white space is
-- in the app id, the job name and the hash, and the app id and the name are not empty.
pub parse_description-build_description :
    (app job hash : Text) (idx : ℕ)
    → Word app
    → Word job
    → Solid hash
    → idx < 9223372036854775808
    → parse_description (build_description app job idx hash)
      ≡ some (record { app = app; job = job; hash = hash; index = pos idx })
unfolding parse_description build_description
parse_description-build_description app job hash idx a j h n =
    rw
      (
        cut_prefix-append description_prefix (
            codes " app="
            ++ (app
                ++ (codes " job="
                    ++ (job ++ (codes " idx=" ++ (decimal idx ++ (codes " hash=" ++ hash))))))),
        parse_description,
        build_description,
        description_fields app job hash idx (Word-Solid app a) (Word-Solid job j) h,
        read_fields app job (decimal idx) hash,
      )
      (owned-Word app job hash (atoi_value (decimal idx)) a j
        ∙ ap (λ i. some (record { app = app; job = job; hash = hash; index = i }))
            (atoi_value-decimal idx n))
