-- ===== src/Locks/Redis/Exclusion.antt =====
-- go/internal/locks/redis/redis.go: the handles of two clients have different tokens.
use cronix.Prelude.{ℕ, ◌≡◌, some, ◌≢◌, ◌⊎◌, Option, inr, inl, refl, sym, arith, ◌∙◌, ap, subst}
use cronix.Locks.{taken, Taken}
use cronix.Locks.Redis.{Server, Handle, new_handle, or_prefix}
use cronix.Locks.Redis.System.{
  attempts, releases, refreshes, expires, begins, goes_on, System, given, Fresh, put, Step,
  Reachable,
}
use cronix.Locks.Redis.Effects.{Attempted, Released, Kept, acquire-Attempted, release-Released}

module _ {S : Type 0} (server : Server S) where
  -- Two clients' tokens differ.
  abbrev pub Distinct : (ℕ → Option Handle) → Type 0
  Distinct clients =
      (i j : ℕ) (h k : Handle) → clients i ≡ some h → clients j ≡ some k → i ≢ j → h.token ≢ k.token

  pub put-cases :
      (i : ℕ) (h : Handle) (clients : ℕ → Option Handle) (a : ℕ) (x : Handle)
      → put server i h clients a ≡ some x
      → ((i ≡ a) × (h ≡ x)) ⊎ ((i ≢ a) × (clients a ≡ some x))
  put-cases i h clients a x e = ground arith

  given-Distinct :
      (sys : System server) (i : ℕ) (h : Handle) (got : Taken Handle)
      → Fresh server h.token sys
      → (got ≡ taken h)
        ⊎ ((clients : ℕ → Option Handle) (i : ℕ) → given server i got clients ≡ clients)
      → Distinct sys.clients
      → Distinct (given server i got sys.clients)
  given-Distinct sys i h got fresh (inr e) d = rw (e sys.clients i) d
  given-Distinct sys i h got fresh (inl e) d = rw e (λ a b x y p q ne.
      elim (put-cases i h sys.clients a x p) [
        | inl (ia, hx) ↦ elim (put-cases i h sys.clients b y q) [
          | inl (ib, hy) ↦ absurd (ne (sym ia ∙ ib))
          | inr (ib, cb) ↦ λ t. fresh b y cb (sym t ∙ sym (ap (λ k. k.token) hx))
        ]
        | inr (ia, ca) ↦ elim (put-cases i h sys.clients b y q) [
          | inl (ib, hy) ↦ λ t. fresh a x ca (t ∙ sym (ap (λ k. k.token) hy))
          | inr (ib, cb) ↦ d a b x y ca cb ne
        ]
      ])

  -- What a client had before its handle was replaced by one with the same token.
  put-before :
      (i : ℕ) (h h' : Handle) (clients : ℕ → Option Handle) (a : ℕ) (x : Handle)
      → clients i ≡ some h
      → h'.token ≡ h.token
      → put server i h' clients a ≡ some x
      → (y : Handle) × ((clients a ≡ some y) × (y.token ≡ x.token))
  put-before i h h' clients a x e t p = elim (put-cases i h' clients a x p) [
    | inl (ia, hx) ↦ (h, (subst (λ j. clients j ≡ some h) ia e, sym t ∙ ap (λ k. k.token) hx))
    | inr (ia, ca) ↦ (x, (ca, refl))
  ]

  put-Distinct :
      (i : ℕ) (h h' : Handle) (clients : ℕ → Option Handle)
      → clients i ≡ some h
      → h'.token ≡ h.token
      → Distinct clients
      → Distinct (put server i h' clients)
  put-Distinct i h h' clients e t d a b x y p q ne =
      let (x0, (cx, tx)) = put-before i h h' clients a x e t p in
      let (y0, (cy, ty)) = put-before i h h' clients b y e t q in
      λ same. d a b x0 y0 cx cy ne (tx ∙ same ∙ sym ty)

  Step-Distinct :
      {sys sys' : System server} {by : Option ℕ}
      → Step server by sys sys'
      → Distinct sys.clients
      → Distinct sys'.clients
  unfolding Attempted Released Kept
  Step-Distinct (attempts {sys} i link prefix key token ttl fresh) d =
      given-Distinct sys i (new_handle server (or_prefix prefix) key token ttl) _ fresh
        (acquire-Attempted server (λ n. link) prefix key token ttl sys.store).1 d
  Step-Distinct (releases {sys} i h link e) d =
      put-Distinct i h _ sys.clients e (release-Released server link h sys.store).0.1 d
  Step-Distinct (refreshes i h link e) d = d
  Step-Distinct (expires s' e) d = d

  pub Reachable-Distinct : {sys : System server} → Reachable server sys → Distinct sys.clients
  Reachable-Distinct (begins s) = λ i j h k e. cc
  Reachable-Distinct (goes_on r step) = Step-Distinct step (Reachable-Distinct r)
