-- ===== src/Crontab/Owner.antt =====
-- go/internal/backends/crontab/parse.go and policy.go: the ownership comment. The regular
-- expression has one way to match, since the byte that ends each group is not in its class: a
-- group is the longest run of its class.
use cronix.Prelude.Text.{Text, codes, is_digit, cut_prefix, span, within}
use cronix.Prelude.{ℕ, Bool, Option, ◌++◌, leb, some, none, ◌||◌, length, [], ◌&&◌, if◌then◌else◌}
use cronix.Manifest.Validate.{is_id_byte, match_id}
use cronix.Prelude.Text.Decimal.{decimal}

abbrev pub owner_marker : Text
owner_marker = codes "# cronix:owned"

pub record OwnerGroups : Type 0 where
  pub app : Text
  pub job : Text
  pub hash : Text
  pub idx : Text

-- `[0-9a-f]`
abbrev pub is_hex : ℕ → Bool
is_hex c = is_digit c || within b'a' b'f' c

-- `[0-9a-f]{1,64}`
abbrev pub is_hash : Text → Bool
is_hash t = leb 1 (length t) && leb (length t) 64

-- A group behind a literal: the run of its class if the test admits it, and the rest.
unfoldable pub group : Text → (ℕ → Bool) → (Text → Bool) → Text → Option (Text × Text)
group literal class admits t = elim (cut_prefix t literal) [
  | none ↦ none
  | some rest ↦
      let (run, others) = span class rest in if admits run then some (run, others) else none
]

abbrev pub app_group : Text → Option (Text × Text)
app_group = group (owner_marker ++ codes " app=") is_id_byte match_id

abbrev pub job_group : Text → Option (Text × Text)
job_group = group (codes " job=") is_id_byte match_id

abbrev pub hash_group : Text → Option (Text × Text)
hash_group = group (codes " hash=") is_hex is_hash

abbrev pub idx_group : Text → Option (Text × Text)
idx_group = group (codes " idx=") is_digit (λ t. leb 1 (length t))

-- `$`: nothing is left.
unfoldable pub finish_owner : Text → Text → Text → Option (Text × Text) → Option OwnerGroups
finish_owner app job hash (some (idx, [])) =
    some (record { app = app; job = job; hash = hash; idx = idx })
finish_owner app job hash _ = none

-- `ownerLineRe.FindStringSubmatch`
unfoldable pub match_owner : Text → Option OwnerGroups
unfolding finish_owner
match_owner line = elim (app_group line) [
  | none ↦ none
  | some (app, after_app) ↦ elim (job_group after_app) [
    | none ↦ none
    | some (job, after_job) ↦ elim (hash_group after_job) [
      | none ↦ none
      | some (hash, after_hash) ↦ finish_owner app job hash (idx_group after_hash)
    ]
  ]
]

-- The comment that `render` writes.
unfoldable pub owner_line : Text → Text → Text → ℕ → Text
owner_line app job hash idx =
    (owner_marker ++ codes " app=")
    ++ (app
        ++ (codes " job=" ++ (job ++ (codes " hash=" ++ (hash ++ (codes " idx=" ++ decimal idx))))))
