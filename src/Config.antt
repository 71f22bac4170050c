-- ===== src/Config.antt =====
-- go/internal/config/config.go: the operator's configuration, `Defaults` and `Validate`. The issues
-- are a data type in place of their texts. Reading the file and the YAML decoder are not modelled.
pub mod Filled
pub mod Accepted
use cronix.Prelude.{
  ℕ, suc, Bool, List, Option, [], ◌∷◌, ◌||◌, true, ◌++◌, not, none, false, some, zero, all, ◌==◌,
}
use cronix.Prelude.Int.{ℤ, pos, ltℤ, negsuc}
use cronix.Prelude.Text.{Text, codes, cut_prefix, contains}

pub record ManifestSource : Type 0 where
  pub app : Text
  pub url : Text
  pub secret_refs : List Text

pub record RedisConfig : Type 0 where
  pub addr : Text
  pub db : ℤ
  pub username : Text
  pub password : Text
  pub key_prefix : Text

pub record LocksConfig : Type 0 where
  pub default : Text
  pub flock_dir : Text
  pub redis : Option RedisConfig

pub record RetriesDefault : Type 0 where
  pub max_attempts : ℤ
  pub min_seconds : ℤ
  pub max_seconds : ℤ

pub record DefaultsConfig : Type 0 where
  pub timeout_seconds : ℤ
  pub retries : RetriesDefault

pub record Config : Type 0 where
  pub log_level : Text
  pub manifest_sources : List ManifestSource
  pub locks : LocksConfig
  pub defaults : DefaultsConfig

pub data Issue : Type 0 where
  log_level_issue : Issue
  app_required url_required url_scheme refs_required : ℕ → Issue
  bad_ref : ℕ → ℕ → Issue
  lock_default_issue redis_addr_required : Issue
  timeout_issue attempts_issue seconds_issue : Issue

-- `Defaults`
abbrev pub default_config : Config
default_config = record {
  log_level = codes "info";
  manifest_sources = [];
  locks = record { default = codes "flock"; flock_dir = codes "/var/lock/cronix"; redis = none };
  defaults = record {
    timeout_seconds = pos 60;
    retries = record { max_attempts = pos 3; min_seconds = pos 1; max_seconds = pos 60 };
  };
}

abbrev pub or_text : Text → Text → Text
or_text value [] = value
or_text value (c ∷ cs) = c ∷ cs

-- `if x == 0 { x = value }`
abbrev pub or_int : ℕ → ℤ → ℤ
or_int value (pos zero) = pos value
or_int value (pos (suc n)) = pos (suc n)
or_int value (negsuc n) = negsuc n

-- The defaults that `Validate` fills in.
unfoldable pub filled : Config → Config
filled c = record {
  log_level = or_text (codes "info") c.log_level;
  manifest_sources = c.manifest_sources;
  locks = record {
    default = or_text (codes "flock") c.locks.default;
    flock_dir = or_text (codes "/var/lock/cronix") c.locks.flock_dir;
    redis = c.locks.redis;
  };
  defaults = record {
    timeout_seconds = or_int 60 c.defaults.timeout_seconds;
    retries = record {
      max_attempts = or_int 3 c.defaults.retries.max_attempts;
      min_seconds = or_int 1 c.defaults.retries.min_seconds;
      max_seconds = or_int 60 c.defaults.retries.max_seconds;
    };
  };
}

abbrev pub issue_if : Bool → Issue → List Issue
issue_if true issue = issue ∷ []
issue_if false issue = []

-- `secretRefRe`
unfoldable pub is_ref : Text → Bool
is_ref ref =
    let rest : Text → Bool = λ scheme. elim (cut_prefix ref scheme) [
      | none ↦ false
      | some [] ↦ false
      | some (c ∷ cs) ↦ all (λ b. not (b == 10)) (c ∷ cs)
    ] in
    rest (codes "env:") || rest (codes "file:") || rest (codes "raw:")

abbrev pub has_prefix : Text → Text → Bool
has_prefix t p = elim (cut_prefix t p) [ none ↦ false | some rest ↦ true ]

unfoldable pub url_allowed : Text → Bool
url_allowed url =
    has_prefix url (codes "https://")
    || has_prefix url (codes "file://")
    || has_prefix url (codes "http://localhost")
    || has_prefix url (codes "http://127.0.0.1")

unfoldable pub url_issues : ℕ → Text → List Issue
unfolding url_allowed
url_issues i [] = url_required i ∷ []
url_issues i (c ∷ cs) = issue_if (not (url_allowed (c ∷ cs))) (url_scheme i)

abbrev pub is_nil : {A : Type 0} → List A → Bool
is_nil [] = true
is_nil (x ∷ xs) = false

unfoldable pub ref_issues : ℕ → ℕ → List Text → List Issue
unfolding is_ref
ref_issues i j [] = []
ref_issues i j (r ∷ rs) = issue_if (not (is_ref r)) (bad_ref i j) ++ ref_issues i (suc j) rs

-- The body of the loop over the sources.
unfoldable pub source_issues : ℕ → ManifestSource → List Issue
unfolding url_issues ref_issues
source_issues i src =
    issue_if (is_nil src.app) (app_required i)
    ++ (url_issues i src.url
        ++ (issue_if (is_nil src.secret_refs) (refs_required i) ++ ref_issues i 0 src.secret_refs))

unfoldable pub sources_issues : ℕ → List ManifestSource → List Issue
unfolding source_issues
sources_issues i [] = []
sources_issues i (s ∷ ss) = source_issues i s ++ sources_issues (suc i) ss

abbrev pub one_of : List Text → Text → Bool
one_of xs t = contains xs t

unfoldable pub redis_issues : Option RedisConfig → List Issue
redis_issues none = []
redis_issues (some r) = issue_if (is_nil r.addr) redis_addr_required

abbrev pub outside : ℤ → ℕ → Bool
outside x limit = ltℤ x (pos 1) || ltℤ (pos limit) x

-- The checks, on a configuration with the defaults filled in.
unfoldable pub config_issues : Config → List Issue
unfolding sources_issues redis_issues
config_issues c =
    issue_if
      (not
        (contains (codes "debug" ∷ codes "info" ∷ codes "warn" ∷ codes "error" ∷ []) c.log_level))
      log_level_issue
    ++ (sources_issues 0 c.manifest_sources
        ++ (issue_if (not (contains (codes "flock" ∷ codes "redis" ∷ []) c.locks.default))
              lock_default_issue
            ++ (redis_issues c.locks.redis
                ++ (issue_if (outside c.defaults.timeout_seconds 600) timeout_issue
                    ++ (issue_if (outside c.defaults.retries.max_attempts 10) attempts_issue
                        ++ issue_if
                            (ltℤ c.defaults.retries.max_seconds c.defaults.retries.min_seconds)
                            seconds_issue)))))

-- `Validate`: the configuration with the defaults, and the issues
unfoldable pub validate : Config → Config × List Issue
unfolding filled config_issues
validate c = (filled c, config_issues (filled c))
