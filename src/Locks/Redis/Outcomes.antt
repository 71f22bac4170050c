-- ===== src/Locks/Redis/Outcomes.antt =====
-- go/internal/locks/redis/redis.go: `Refresh`, and `Acquire` with a deadline.
use cronix.Prelude.{
  refl, ℕ, ◌≡◌, false, ◌≢◌, some, none, ◌≤◌, ◌<◌, ◌/◌, List, arith, ◌∷◌, Option-cases, suc, ◌⊎◌, [],
  inl, ◌∙◌, zero, inr, subst, Bool-cases, ap,
}
use cronix.Locks.Redis.{
  Server, Handle, delivered, refresh, refresh_script, poll, ttl_seconds, acquire, acquire_checked,
  validate_key, new_handle, or_prefix,
}
use cronix.Locks.Redis.System.{Laws}
use cronix.Prelude.Text.{codes, Text, equal_refl, equal, equal_iff}
use cronix.Prelude.Int.{pos_part, ℤ, pos, leℤ}
use cronix.Locks.{taken, busy}

module _ {S : Type 0} (server : Server S) (laws : Laws server) where
  refresh_script-stored :
      (key token : Text) (n : ℤ) (s : S)
      → server.get key s ≡ some token
      → refresh_script server key token n s ≡ server.expire key n s
  unfolding refresh_script
  refresh_script-stored key token n s e = rw (e, refresh_script, equal_refl token) refl

  refresh_script-lost :
      (key token : Text) (n : ℤ) (s : S)
      → server.get key s ≢ some token
      → refresh_script server key token n s ≡ (s, 0)
  unfolding refresh_script
  refresh_script-lost key token n s lost = elim (Option-cases (server.get key s)) [
    | inl e ↦ rw (e, refresh_script) refl
    | inr (owner, e) ↦ elim (Bool-cases (equal owner token)) [
      | inl same ↦ absurd (lost (e ∙ ap some ((equal_iff owner token).0 same)))
      | inr other ↦ rw (e, refresh_script, other) refl
    ]
  ]

  pub expire-whole :
      (key : Text) (n : ℕ) (s : S)
      → 0 < n
      → server.get key (server.expire key (pos n) s).0 ≡ server.get key s
  expire-whole key zero s h = elim h [ ]
  expire-whole key (suc n) s h = laws.expire_later key n s

  -- The server's answer arrives, and the handle is not released. Where the token is not stored the
  -- server is left alone and the refresh is an error. Where it is stored the refresh succeeds: with
  -- a TTL of a second or more the token stays stored, with a shorter one the key is gone.
  pub refresh-outcome :
      (h : Handle) (s : S)
      → h.released ≡ false
      → ((server.get h.key s ≢ some h.token)
          → refresh server delivered h s
            ≡ (s, some (codes "redis lock: lost lock (token mismatch)")))
        × ((server.get h.key s ≡ some h.token)
            → ((refresh server delivered h s).1 ≡ none)
              × ((1000000000 ≤ pos_part h.ttl
                    → server.get h.key (refresh server delivered h s).0 ≡ some h.token)
                  × (pos_part h.ttl < 1000000000
                      → server.get h.key (refresh server delivered h s).0 ≡ none)))
  unfolding refresh
  refresh-outcome h s live =
      rw (live, refresh)
        (
          λ lost.
              rw (refresh_script-lost h.key h.token (ttl_seconds server h) s lost, refresh) refl,
          λ owned.
              rw (refresh_script-stored h.key h.token (ttl_seconds server h) s owned, refresh)
                (
                  rw (laws.expire_answer h.key h.token (ttl_seconds server h) s owned) refl,
                  (
                    λ long.
                        expire-whole h.key (pos_part h.ttl / 1000000000) s (omega arith) ∙ owned,
                    λ short.
                        subst (λ n. server.get h.key (server.expire h.key (pos n) s).0 ≡ none)
                          (zero_seconds short) (laws.expire_now h.key s),
                  ),
                ),
        )
    where
      zero_seconds : pos_part h.ttl < 1000000000 → 0 ≡ pos_part h.ttl / 1000000000
      zero_seconds short = omega arith

  -- What the waits do to the server.
  abbrev pub waited : List (S → S) → S → S
  waited [] s = s
  waited (other ∷ others) s = waited others (other s)

  -- The key is free after some of the waits, if only the first.
  abbrev pub Frees : Text → List (S → S) → S → Type 0
  Frees key [] s = server.get key s ≡ none
  Frees key (other ∷ others) s = (server.get key s ≡ none) ⊎ Frees key others (other s)

  -- The polls of a handle: it is taken if the key is free at one of them.
  poll-outcome :
      (h : Handle) (n : ℕ) (others : List (S → S)) (s : S)
      → (Frees h.key others s
          → ((poll server (λ i. delivered) h n others s).1 ≡ taken h)
            × (server.get h.key (poll server (λ i. delivered) h n others s).0 ≡ some h.token))
        × ((¬ Frees h.key others s)
            → poll server (λ i. delivered) h n others s ≡ (waited others s, busy))
  unfolding poll
  poll-outcome h n [] s = elim (Option-cases (server.get h.key s)) [
    | inl free ↦
        let (won, stored) = laws.set_nx_free h.key h.token h.ttl s free in
        (λ f. rw (won, poll) (refl, stored), λ never. absurd (never free))
    | inr (o, e) ↦
        let held = laws.set_nx_held h.key h.token o h.ttl s e in
        (λ f. cc, λ never. rw (ap (λ r. r.1) held, poll) (ap (λ r. (r.0, busy)) held))
  ]
  poll-outcome h n (other ∷ others) s = elim (Option-cases (server.get h.key s)) [
    | inl free ↦
        let (won, stored) = laws.set_nx_free h.key h.token h.ttl s free in
        (λ f. rw (won, poll) (refl, stored), λ never. absurd (never (inl free)))
    | inr (o, e) ↦
        let held = laws.set_nx_held h.key h.token o h.ttl s e in
        rw (ap (λ r. r.1) held, poll, ap (λ r. r.0) held)
          (
            λ f. (poll-outcome h (suc n) others (other s)).0 (later o e f),
            λ never. (poll-outcome h (suc n) others (other s)).1 (λ f. never (inr f)),
          )
  ]
    where
      later :
          (o : Text)
          → server.get h.key s ≡ some o
          → (server.get h.key s ≡ none) ⊎ Frees h.key others (other s)
          → Frees h.key others (other s)
      later o e (inl free) = cc
      later o e (inr f) = f

  -- `Acquire` with a deadline, for a valid key and a positive TTL, over a network that delivers: it
  -- polls until the time is up, and it ends with the handle of the key and the token, which the
  -- server then holds, if the key is free at one of the polls. If the key is held at each of them
  -- it ends with `ErrContended`, and leaves the server as the others left it.
  pub acquire-outcome :
      (prefix key token : Text) (ttl : ℤ) (others : List (S → S)) (s : S)
      → validate_key key ≡ none
      → leℤ ttl (pos 0) ≡ false
      → let h = new_handle server (or_prefix prefix) key token ttl in
        let r = acquire server (λ i. delivered) prefix (some token) (some others) key ttl s in
        (Frees h.key others s → (r.1 ≡ taken h) × (server.get h.key r.0 ≡ some token))
        × ((¬ Frees h.key others s) → r ≡ (waited others s, busy))
  unfolding acquire acquire_checked
  acquire-outcome prefix key token ttl others s valid positive =
      rw (valid, positive, acquire)
        (poll-outcome (new_handle server (or_prefix prefix) key token ttl) 0 others s)
