-- ===== src/Trigger/Secrets.antt =====
-- go/internal/trigger/secrets.go: `ResolveSecrets` and `resolveOne`, with the environment and the
-- file system as arguments.
use cronix.Prelude.{
  [], List, Option, if◌then◌else◌, ◌∷◌, ◌≡◌, some, All, none, ◌≢◌, arith, subst, refl,
}
use cronix.Prelude.Text.{Text, cut, equal, trim_space, codes}

-- `os.Getenv`, empty where the variable is not set, and `os.ReadFile`, where `none` is an error
pub record Sources : Type 0 where
  pub getenv : Text → Text
  pub read_file : Text → Option Text

pub data SecretError : Type 0 where
  no_scheme : Text → SecretError
  unreadable : Text → SecretError
  unknown_scheme : Text → SecretError
  no_secrets : SecretError

pub data Resolved (A : Type 0) : Type 0 where
  resolved : A → Resolved A
  unresolved : SecretError → Resolved A

resolved-injective : {A : Type 0} (a b : A) → resolved a ≡ resolved b → a ≡ b
resolved-injective a b e = ground arith

resolve_file : Text → Option Text → Resolved Text
resolve_file path none = unresolved (unreadable path)
resolve_file path (some raw) = resolved (trim_space raw)

resolve_scheme : Sources → Text → Text → Resolved Text
unfolding resolve_file
resolve_scheme src scheme rest =
    if equal scheme (codes "env")
    then resolved (src.getenv rest)
    else if equal scheme (codes "file")
    then resolve_file rest (src.read_file rest)
    else if equal scheme (codes "raw")
    then resolved rest
    else unresolved (unknown_scheme scheme)

unfoldable pub resolve_one : Sources → Text → Resolved Text
unfolding resolve_scheme
resolve_one src ref = elim (cut b':' ref) [
  | none ↦ unresolved (no_scheme ref)
  | some (scheme, rest) ↦ resolve_scheme src scheme rest
]

-- `if v != "" { out = append(out, v) }` before the later ones
keep : Text → List Text → List Text
keep [] out = out
keep (c ∷ cs) out = (c ∷ cs) ∷ out

unfoldable pub resolve_all : Sources → List Text → Resolved (List Text)
unfolding resolve_one keep
resolve_all src [] = resolved []
resolve_all src (ref ∷ refs) =
    let later = resolve_all src refs in
    elim (resolve_one src ref) [
      | unresolved err ↦ unresolved err
      | resolved v ↦ elim later [
        | unresolved err ↦ unresolved err
        | resolved out ↦ resolved (keep v out)
      ]
    ]

unfoldable pub resolve_secrets : Sources → List Text → Resolved (List Text)
unfolding resolve_all
resolve_secrets src refs = elim (resolve_all src refs) [
  | unresolved err ↦ unresolved err
  | resolved [] ↦ unresolved no_secrets
  | resolved (v ∷ out) ↦ resolved (v ∷ out)
]

keep-nonempty :
    (v : Text) (out : List Text) → All (λ s. s ≢ []) out → All (λ s. s ≢ []) (keep v out)
unfolding keep
keep-nonempty [] out h = h
keep-nonempty (c ∷ cs) out h = ((λ e. cc), h)

resolve_all-nonempty :
    (src : Sources) (refs out : List Text)
    → resolve_all src refs ≡ resolved out
    → All (λ s. s ≢ []) out
unfolding resolve_all
resolve_all-nonempty src [] out e = ground arith
resolve_all-nonempty src (ref ∷ refs) out e =
    by_parts (resolve_one src ref) (resolve_all src refs) refl refl (resolve_all-nonempty src refs)
  where
    by_parts :
        (one : Resolved Text) (later : Resolved (List Text))
        → resolve_one src ref ≡ one
        → resolve_all src refs ≡ later
        → ((rest : List Text) → resolve_all src refs ≡ resolved rest → All (λ s. s ≢ []) rest)
        → All (λ s. s ≢ []) out
    by_parts (unresolved err) later p q h = cc (rw (p, resolve_all) at e)
    by_parts (resolved v) (unresolved err) p q h = cc (rw (p, q, resolve_all) at e)
    by_parts (resolved v) (resolved rest) p q h =
        let same : resolved (keep v rest) ≡ resolved out = rw (p, q, resolve_all) at e in
        subst (All (λ s. s ≢ [])) (resolved-injective _ _ same) (keep-nonempty v rest (h rest q))

-- The secrets that are resolved are at least one, and none of them is empty, so that an attempt
-- has a first secret to sign with.
pub resolve_secrets-nonempty :
    (src : Sources) (refs out : List Text)
    → resolve_secrets src refs ≡ resolved out
    → (out ≢ []) × All (λ s. s ≢ []) out
unfolding resolve_secrets
resolve_secrets-nonempty src refs out e = by_all (resolve_all src refs) refl
  where
    by_all :
        (r : Resolved (List Text)) → resolve_all src refs ≡ r → (out ≢ []) × All (λ s. s ≢ []) out
    by_all (unresolved err) q = cc (rw (q, resolve_secrets) at e)
    by_all (resolved []) q = cc (rw (q, resolve_secrets) at e)
    by_all (resolved (v ∷ rest)) q =
        let same = resolved-injective _ _ (rw (q, resolve_secrets) at e) in
        subst (λ o. (o ≢ []) × All (λ s. s ≢ []) o) same
          ((λ z. cc), resolve_all-nonempty src refs (v ∷ rest) q)
