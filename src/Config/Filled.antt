-- ===== src/Config/Filled.antt =====
-- go/internal/config/config.go: each check of `Validate` and what it accepts.
use cronix.Prelude.{
  ℕ, Option, List, Bool, ◌≢◌, In, ◌++◌, not, ◌≡◌, All, [], some, true, false, ◌∷◌, arith, none,
  refl, Bool-cases, inl, suc, inr,
}
use cronix.Prelude.Int.{pos, negsuc, ℤ, ◌≤ℤ◌, ltℤ}
use cronix.Config.{
  ManifestSource, Config, ref_issues, url_issues, source_issues, sources_issues, redis_issues,
  RedisConfig, Issue, is_nil, outside, issue_if, is_ref, url_allowed, app_required,
  redis_addr_required, bad_ref, url_scheme, refs_required,
}
use cronix.Prelude.Text.{contains, Text, codes, equal, equal_iff}

-- An app, an allowed URL, and references that all have a scheme and a value.
pub record IsSource (src : ManifestSource) : Type 0 where
  pub has_app : src.app ≢ []
  pub has_url : src.url ≢ []
  pub allowed : url_allowed src.url ≡ true
  pub has_refs : src.secret_refs ≢ []
  pub refs : All (λ r. is_ref r ≡ true) src.secret_refs

abbrev pub HasAddr : Option RedisConfig → Type 0
HasAddr none = Unit
HasAddr (some r) = r.addr ≢ []

pub record IsConfig (c : Config) : Type 0 where
  pub level : In c.log_level (codes "debug" ∷ codes "info" ∷ codes "warn" ∷ codes "error" ∷ [])
  pub sources : All IsSource c.manifest_sources
  pub lock : In c.locks.default (codes "flock" ∷ codes "redis" ∷ [])
  pub addr : HasAddr c.locks.redis
  pub timeout : (pos 1 ≤ℤ c.defaults.timeout_seconds) × (c.defaults.timeout_seconds ≤ℤ pos 600)
  pub attempts :
      (pos 1 ≤ℤ c.defaults.retries.max_attempts) × (c.defaults.retries.max_attempts ≤ℤ pos 10)
  pub wait : c.defaults.retries.min_seconds ≤ℤ c.defaults.retries.max_seconds

pub contains→In : (xs : List Text) (t : Text) → contains xs t ≡ true → In t xs
unfolding contains
contains→In [] t h = cc h
contains→In (x ∷ xs) t h = elim (Bool-cases (equal x t)) [
  | inl e ↦ inl ((equal_iff x t).0 e)
  | inr e ↦ inr (contains→In xs t (rw (e, contains) at h))
]

pub In→contains : (xs : List Text) (t : Text) → In t xs → contains xs t ≡ true
unfolding contains
In→contains [] t h = absurd h
In→contains (x ∷ xs) t (inl e) = rw ((equal_iff x t).1 e, contains) refl
In→contains (x ∷ xs) t (inr h) = ground (arith, In→contains xs t h)

pub append-empty : {A : Type 0} (xs ys : List A) → xs ++ ys ≡ [] → (xs ≡ []) × (ys ≡ [])
append-empty [] ys e = (refl, e)
append-empty (x ∷ xs) ys e = absurd (cc e)

pub issue_if-empty : (b : Bool) (i : Issue) → issue_if b i ≡ [] → b ≡ false
issue_if-empty true i e = absurd (cc e)
issue_if-empty false i e = refl

pub not-false : (b : Bool) → not b ≡ false → b ≡ true
not-false true h = refl
not-false false h = cc h

is_nil-false : {A : Type 0} (xs : List A) → is_nil xs ≡ false → xs ≢ []
is_nil-false [] h = absurd (cc h)
is_nil-false (x ∷ xs) h = λ e. cc e

ne-is_nil : {A : Type 0} (xs : List A) → xs ≢ [] → is_nil xs ≡ false
ne-is_nil [] h = absurd (h refl)
ne-is_nil (x ∷ xs) h = refl

ref_issues-empty :
    (i j : ℕ) (rs : List Text) → ref_issues i j rs ≡ [] → All (λ r. is_ref r ≡ true) rs
unfolding ref_issues
ref_issues-empty i j [] h = tt
ref_issues-empty i j (r ∷ rs) h =
    let (a, b) =
      append-empty (issue_if (not (is_ref r)) (bad_ref i j)) (ref_issues i (suc j) rs) h in
    (
      not-false (is_ref r) (issue_if-empty (not (is_ref r)) (bad_ref i j) a),
      ref_issues-empty i (suc j) rs b,
    )

ref_issues-none :
    (i j : ℕ) (rs : List Text) → All (λ r. is_ref r ≡ true) rs → ref_issues i j rs ≡ []
unfolding ref_issues
ref_issues-none i j [] h = refl
ref_issues-none i j (r ∷ rs) h = rw (h.0, ref_issues) (ref_issues-none i (suc j) rs h.1)

url_issues-empty :
    (i : ℕ) (url : Text) → url_issues i url ≡ [] → (url ≢ []) × (url_allowed url ≡ true)
unfolding url_issues
url_issues-empty i [] h = absurd (cc h)
url_issues-empty i (c ∷ cs) h = (
  (λ e. cc e),
  not-false (url_allowed (c ∷ cs)) (issue_if-empty (not (url_allowed (c ∷ cs))) (url_scheme i) h),
)

url_issues-none : (i : ℕ) (url : Text) → url ≢ [] → url_allowed url ≡ true → url_issues i url ≡ []
unfolding url_issues
url_issues-none i [] ne h = absurd (ne refl)
url_issues-none i (c ∷ cs) ne h = rw (h, url_issues) refl

source_issues-empty : (i : ℕ) (src : ManifestSource) → source_issues i src ≡ [] → IsSource src
unfolding source_issues
source_issues-empty i src h =
    let (a, rest) = append-empty (issue_if (is_nil src.app) (app_required i)) _ h in
    let (u, rest2) = append-empty (url_issues i src.url) _ rest in
    let (r, rs) = append-empty (issue_if (is_nil src.secret_refs) (refs_required i)) _ rest2 in
    let (url, fine) = url_issues-empty i src.url u in
    record {
      has_app = is_nil-false src.app (issue_if-empty (is_nil src.app) (app_required i) a);
      has_url = url;
      allowed = fine;
      has_refs =
          is_nil-false src.secret_refs
            (issue_if-empty (is_nil src.secret_refs) (refs_required i) r);
      refs = ref_issues-empty i 0 src.secret_refs rs;
    }

source_issues-none : (i : ℕ) (src : ManifestSource) → IsSource src → source_issues i src ≡ []
unfolding source_issues
source_issues-none i src h =
    rw
      (
        ne-is_nil src.app h.has_app,
        source_issues,
        url_issues-none i src.url h.has_url h.allowed,
        ne-is_nil src.secret_refs h.has_refs,
        ref_issues-none i 0 src.secret_refs h.refs,
      )
      refl

pub sources_issues-empty :
    (i : ℕ) (ss : List ManifestSource) → sources_issues i ss ≡ [] → All IsSource ss
unfolding sources_issues
sources_issues-empty i [] h = tt
sources_issues-empty i (s ∷ ss) h =
    let (a, b) = append-empty (source_issues i s) (sources_issues (suc i) ss) h in
    (source_issues-empty i s a, sources_issues-empty (suc i) ss b)

pub sources_issues-none :
    (i : ℕ) (ss : List ManifestSource) → All IsSource ss → sources_issues i ss ≡ []
unfolding sources_issues
sources_issues-none i [] h = refl
sources_issues-none i (s ∷ ss) h =
    rw (source_issues-none i s h.0, sources_issues) (sources_issues-none (suc i) ss h.1)

pub redis_issues-empty : (r : Option RedisConfig) → redis_issues r ≡ [] → HasAddr r
unfolding redis_issues
redis_issues-empty none h = tt
redis_issues-empty (some r) h =
    is_nil-false r.addr (issue_if-empty (is_nil r.addr) redis_addr_required h)

pub redis_issues-none : (r : Option RedisConfig) → HasAddr r → redis_issues r ≡ []
unfolding redis_issues
redis_issues-none none h = refl
redis_issues-none (some r) h = rw (ne-is_nil r.addr h, redis_issues) refl

pub outside-false : (x : ℤ) (limit : ℕ) → outside x limit ≡ false → (pos 1 ≤ℤ x) × (x ≤ℤ pos limit)
outside-false (pos n) limit h = ground arith
outside-false (negsuc n) limit h = ground arith

pub within-outside : (x : ℤ) (limit : ℕ) → (pos 1 ≤ℤ x) × (x ≤ℤ pos limit) → outside x limit ≡ false
within-outside (pos n) limit h = ground arith
within-outside (negsuc n) limit h = ground arith

pub ltℤ-false : (x y : ℤ) → ltℤ y x ≡ false → x ≤ℤ y
ltℤ-false x y h = ground arith

pub leℤ-ltℤ : (x y : ℤ) → x ≤ℤ y → ltℤ y x ≡ false
leℤ-ltℤ x y h = ground arith
