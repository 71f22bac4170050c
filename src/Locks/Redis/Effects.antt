-- ===== src/Locks/Redis/Effects.antt =====
-- go/internal/locks/redis/redis.go: what an attempt, a release and a refresh do to
-- the server.
use cronix.Prelude.{
  ℕ, ◌≡◌, some, none, ◌⊎◌, Option, Option-cases, inr, inl, Bool-cases, refl, ◌∙◌, ap,
}
use cronix.Locks.{taken, Taken}
use cronix.Locks.Redis.{
  Server, Handle, delivered, answer_lost, request_lost, acquire, acquire_checked, try_once, Link,
  new_handle, or_prefix, validate_key, release_script, release, over, ttl_seconds, refresh_script,
  refresh,
}
use cronix.Locks.Redis.System.{given}
use cronix.Prelude.Text.{Text, equal, equal_iff}
use cronix.Prelude.Int.{ℤ, leℤ, pos}

module _ {S : Type 0} (server : Server S) where
  -- An attempt gives its own handle or none, and sends at most one `SET NX`.
  unfoldable pub Attempted : Handle → S → S × Taken Handle → Type 0
  Attempted h s (s', got) =
      ((s' ≡ s) ⊎ (s' ≡ (server.set_nx h.key h.token h.ttl s).0))
      × ((got ≡ taken h)
          ⊎ ((clients : ℕ → Option Handle) (i : ℕ) → given server i got clients ≡ clients))

  try_once-Attempted : (link : Link) (h : Handle) (s : S) → Attempted h s (try_once server link h s)
  unfolding Attempted try_once
  try_once-Attempted delivered h s = elim (Bool-cases (server.set_nx h.key h.token h.ttl s).1) [
    | inl e ↦ rw e (inr refl, inl refl)
    | inr e ↦ rw e (inr refl, inr (λ clients i. refl))
  ]
  try_once-Attempted (answer_lost err) h s = (inr refl, inr (λ clients i. refl))
  try_once-Attempted (request_lost err) h s = (inl refl, inr (λ clients i. refl))

  pub acquire-Attempted :
      (network : ℕ → Link) (prefix key token : Text) (ttl : ℤ) (s : S)
      → Attempted
          (new_handle server (or_prefix prefix) key token ttl)
          s
          (acquire server network prefix (some token) none key ttl s)
  unfolding Attempted acquire acquire_checked
  acquire-Attempted network prefix key token ttl s = elim (Option-cases (validate_key key)) [
    | inr (err, e) ↦ rw (e, acquire) (inl refl, inr (λ clients i. refl))
    | inl e ↦ elim (Bool-cases (leℤ ttl (pos 0))) [
      | inl bad ↦ rw (e, bad, acquire) (inl refl, inr (λ clients i. refl))
      | inr good ↦
          rw (e, good, acquire)
            (try_once-Attempted (network 0) (new_handle server (or_prefix prefix) key token ttl) s)
    ]
  ]

  unfoldable pub Kept : (h h' : Handle) → Type 0
  Kept h h' = (h'.key ≡ h.key) × (h'.token ≡ h.token)

  -- A release keeps the handle's key and token, and removes the key at most where the token is
  -- stored.
  unfoldable pub Released : Handle → S → S × Handle × Option Text → Type 0
  Released h s (s', h', err) =
      Kept h h' × ((s' ≡ s) ⊎ ((server.get h.key s ≡ some h.token) × (s' ≡ (server.del h.key s).0)))

  script-cases :
      (key token : Text) (s : S)
      → ((release_script server key token s).0 ≡ s)
        ⊎ ((server.get key s ≡ some token)
            × ((release_script server key token s).0 ≡ (server.del key s).0))
  unfolding release_script
  script-cases key token s = elim (Option-cases (server.get key s)) [
    | inl e ↦ rw (e, release_script) (inl refl)
    | inr (owner, e) ↦ elim (Bool-cases (equal owner token)) [
      | inl same ↦
          rw (e, same, release_script) (inr (ap some ((equal_iff owner token).0 same), refl))
      | inr other ↦ rw (e, other, release_script) (inl refl)
    ]
  ]

  over-cases :
      {A : Type 0} (link : Link) (r : S × A) (s : S)
      → ((over server link r s).0 ≡ s) ⊎ ((over server link r s).0 ≡ r.0)
  over-cases delivered r s = inr refl
  over-cases (answer_lost err) r s = inr refl
  over-cases (request_lost err) r s = inl refl

  over-Released :
      (link : Link) (h : Handle) (s : S)
      → ((over server link (release_script server h.key h.token s) s).0 ≡ s)
        ⊎ ((server.get h.key s ≡ some h.token)
            × ((over server link (release_script server h.key h.token s) s).0
                ≡ (server.del h.key s).0))
  over-Released link h s = elim (over-cases link (release_script server h.key h.token s) s) [
    | inl e ↦ inl e
    | inr e ↦ elim (script-cases h.key h.token s) [
      | inl f ↦ inl (e ∙ f)
      | inr (owned, f) ↦ inr (owned, e ∙ f)
    ]
  ]

  pub release-Released : (link : Link) (h : Handle) (s : S) → Released h s (release server link h s)
  unfolding Released Kept release
  release-Released link h s = elim (Bool-cases h.released) [
    | inl e ↦ rw (e, release) ((refl, refl), inl refl)
    | inr e ↦ rw (e, release) ((refl, refl), over-Released link h s)
  ]

  -- A refresh changes nothing, or sets the time of a key that holds the handle's token.
  unfoldable pub Refreshed : Handle → S → S → Type 0
  Refreshed h s s' =
      (s' ≡ s)
      ⊎ ((server.get h.key s ≡ some h.token)
          × (s' ≡ (server.expire h.key (ttl_seconds server h) s).0))

  refresh_script-cases :
      (key token : Text) (n : ℤ) (s : S)
      → ((refresh_script server key token n s).0 ≡ s)
        ⊎ ((server.get key s ≡ some token)
            × ((refresh_script server key token n s).0 ≡ (server.expire key n s).0))
  unfolding refresh_script
  refresh_script-cases key token n s = elim (Option-cases (server.get key s)) [
    | inl e ↦ rw (e, refresh_script) (inl refl)
    | inr (owner, e) ↦ elim (Bool-cases (equal owner token)) [
      | inl same ↦
          rw (e, same, refresh_script) (inr (ap some ((equal_iff owner token).0 same), refl))
      | inr other ↦ rw (e, other, refresh_script) (inl refl)
    ]
  ]

  pub refresh-Refreshed :
      (link : Link) (h : Handle) (s : S) → Refreshed h s (refresh server link h s).0
  unfolding Refreshed refresh
  refresh-Refreshed link h s = elim (Bool-cases h.released) [
    | inl e ↦ rw (e, refresh) (inl refl)
    | inr e ↦
        rw (e, refresh)
          (elim (over-cases link (refresh_script server h.key h.token (ttl_seconds server h) s) s) [
            | inl f ↦ inl f
            | inr f ↦ elim (refresh_script-cases h.key h.token (ttl_seconds server h) s) [
              | inl g ↦ inl (f ∙ g)
              | inr (owned, g) ↦ inr (owned, f ∙ g)
            ]
          ])
  ]
