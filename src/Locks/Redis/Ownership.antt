-- ===== src/Locks/Redis/Ownership.antt =====
-- go/internal/locks/redis/redis.go: who can end a client's hold of a lock, and what a client can do
-- that has lost it.
use cronix.Prelude.{
  ℕ, ◌≢◌, ◌≡◌, some, Bool-cases, inl, subst, inr, ◌∙◌, Option, ◌⊎◌, arith, sym, Option-cases, suc,
  zero,
}
use cronix.Locks.{taken, Taken}
use cronix.Locks.Redis.System.{
  attempts, releases, refreshes, expires, Laws, System, Step, Stored, put, given, Reachable,
}
use cronix.Locks.Redis.{Server, Handle, new_handle, or_prefix, ttl_seconds}
use cronix.Prelude.Text.{Text, equal, equal_iff}
use cronix.Prelude.Int.{ℤ, pos}
use cronix.Locks.Redis.Exclusion.{Distinct, Reachable-Distinct}
use cronix.Locks.Redis.Effects.{
  Attempted, Released, Refreshed, Kept, acquire-Attempted, release-Released, refresh-Refreshed,
}

module _ {S : Type 0} (server : Server S) (laws : Laws server) where
  set_nx-held_token :
      (key v : Text) (ttl : ℤ) (s : S) (h : Handle)
      → server.get h.key s ≡ some h.token
      → server.get h.key (server.set_nx key v ttl s).0 ≡ some h.token
  set_nx-held_token key v ttl s h e = elim (Bool-cases (equal h.key key)) [
    | inl same ↦
        let key_eq = (equal_iff h.key key).0 same in
        rw
          (laws.set_nx_held key v h.token ttl s
            (subst (λ k. server.get k s ≡ some h.token) key_eq e))
          e
    | inr other ↦
        laws.set_nx_other key v h.key ttl s (λ p. cc ((equal_iff h.key key).1 p, other)) ∙ e
  ]

  foreign_key :
      (h k : Handle) (s : S)
      → h.token ≢ k.token
      → server.get h.key s ≡ some h.token
      → server.get k.key s ≡ some k.token
      → h.key ≢ k.key
  foreign_key h k s ne eh ek e = ne cc

  put-others :
      (i j : ℕ) (h k : Handle) (clients : ℕ → Option Handle)
      → j ≢ i
      → clients i ≡ some h
      → put server j k clients i ≡ some h
  put-others i j h k clients ne e = ground arith

  given-others :
      (i j : ℕ) (h k : Handle) (got : Taken Handle) (clients : ℕ → Option Handle)
      → (got ≡ taken k)
        ⊎ ((clients : ℕ → Option Handle) (i : ℕ) → given server i got clients ≡ clients)
      → j ≢ i
      → clients i ≡ some h
      → given server j got clients i ≡ some h
  given-others i j h k got clients (inl e) ne c = rw e (put-others i j h k clients ne c)
  given-others i j h k got clients (inr e) ne c = rw (e clients j) c

  attempted-Stored :
      (h k : Handle) (s s' : S)
      → (s' ≡ s) ⊎ (s' ≡ (server.set_nx k.key k.token k.ttl s).0)
      → server.get h.key s ≡ some h.token
      → server.get h.key s' ≡ some h.token
  attempted-Stored h k s s' (inl e) st = rw e st
  attempted-Stored h k s s' (inr e) st = rw e (set_nx-held_token k.key k.token k.ttl s h st)

  -- What the step of another client leaves.
  others-Stored :
      {j : ℕ} {sys sys' : System server} (i : ℕ) (h : Handle)
      → Distinct server sys.clients
      → Step server (some j) sys sys'
      → j ≢ i
      → sys.clients i ≡ some h
      → Stored server h sys
      → (sys'.clients i ≡ some h) × Stored server h sys'
  unfolding Attempted Released Refreshed Kept
  others-Stored i h d (attempts {sys} j link prefix key token ttl fresh) ne e st =
      let k = new_handle server (or_prefix prefix) key token ttl in
      let (effect, got) = acquire-Attempted server (λ n. link) prefix key token ttl sys.store in
      (given-others i j h k _ sys.clients got ne e, attempted-Stored h k sys.store _ effect st)
  others-Stored i h d (releases {sys} j k link ek) ne e st =
      let (kept, effect) = release-Released server link k sys.store in
      (
        put-others i j h _ sys.clients ne e,
        elim effect [
          | inl same ↦ rw same st
          | inr (owned, gone) ↦ rw gone (
              laws.del_other k.key h.key sys.store
                (foreign_key h k sys.store (d i j h k e ek (λ p. ne (sym p))) st owned)
              ∙ st)
        ],
      )
  others-Stored i h d (refreshes {sys} j k link ek) ne e st = (
    e,
    elim (refresh-Refreshed server link k sys.store) [
      | inl same ↦ rw same st
      | inr (owned, later) ↦ rw later (
          laws.expire_other k.key h.key (ttl_seconds server k) sys.store
            (foreign_key h k sys.store (d i j h k e ek (λ p. ne (sym p))) st owned)
          ∙ st)
    ],
  )

  -- A client whose token the server holds keeps its handle and the lock in every step of another
  -- client: an attempt, a release or a refresh, whatever becomes of its commands and answers. The
  -- server behaves as documented, and the system is reached with fresh tokens.
  pub others-keep_lock :
      {j : ℕ} {sys sys' : System server} (i : ℕ) (h : Handle)
      → Reachable server sys
      → Step server (some j) sys sys'
      → j ≢ i
      → sys.clients i ≡ some h
      → Stored server h sys
      → (sys'.clients i ≡ some h) × Stored server h sys'
  others-keep_lock i h r step = others-Stored i h (Reachable-Distinct server r) step

  set_nx-same_key :
      (key v token : Text) (ttl : ℤ) (s : S)
      → token ≢ v
      → server.get key s ≢ some token
      → server.get key (server.set_nx key v ttl s).0 ≢ some token
  set_nx-same_key key v token ttl s ne lost = elim (Option-cases (server.get key s)) [
    | inl free ↦ λ p. ne (cc (p, (laws.set_nx_free key v ttl s free).1))
    | inr (o, e) ↦ rw (laws.set_nx_held key v o ttl s e) lost
  ]

  -- A command that leaves other keys alone does not store a value under one of them.
  by_key :
      (key k token : Text) (s s' : S)
      → (server.get key s ≢ some token → server.get key s' ≢ some token)
      → (k ≢ key → server.get k s' ≡ server.get k s)
      → server.get k s ≢ some token
      → server.get k s' ≢ some token
  by_key key k token s s' here there lost = elim (Bool-cases (equal k key)) [
    | inl same ↦
        let e = (equal_iff k key).0 same in
        subst (λ x. server.get x s' ≢ some token) (sym e)
          (here (subst (λ x. server.get x s ≢ some token) e lost))
    | inr other ↦ rw (there (λ p. cc ((equal_iff k key).1 p, other))) lost
  ]

  expire-lost :
      (key token : Text) (n : ℕ) (s : S)
      → server.get key s ≢ some token
      → server.get key (server.expire key (pos n) s).0 ≢ some token
  expire-lost key token zero s lost = rw (laws.expire_now key s) (λ p. cc p)
  expire-lost key token (suc n) s lost = rw (laws.expire_later key n s) lost

  -- A handle whose token is gone from the server, because its time ran out, stays without the lock
  -- in every step of any client: nothing stores its token again.
  pub Step-stays_lost :
      {by : Option ℕ} {sys sys' : System server} (i : ℕ) (h : Handle)
      → Step server by sys sys'
      → sys.clients i ≡ some h
      → ¬ Stored server h sys
      → ¬ Stored server h sys'
  unfolding Attempted Released Refreshed Kept
  Step-stays_lost i h (attempts {sys} j link prefix key token ttl fresh) e lost =
      let k = new_handle server (or_prefix prefix) key token ttl in
      elim (acquire-Attempted server (λ n. link) prefix key token ttl sys.store).0 [
        | inl same ↦ rw same lost
        | inr set ↦ rw set (
            by_key k.key h.key h.token sys.store _
              (set_nx-same_key k.key token h.token ttl sys.store (fresh i h e))
              (laws.set_nx_other k.key token h.key ttl sys.store) lost)
      ]
  Step-stays_lost i h (releases {sys} j k link ek) e lost =
      elim (release-Released server link k sys.store).1 [
        | inl same ↦ rw same lost
        | inr (owned, gone) ↦ rw gone (
            by_key k.key h.key h.token sys.store _
              (λ l. rw (laws.del_same k.key sys.store) (λ p. cc p))
              (laws.del_other k.key h.key sys.store) lost)
      ]
  Step-stays_lost i h (refreshes {sys} j k link ek) e lost =
      elim (refresh-Refreshed server link k sys.store) [
        | inl same ↦ rw same lost
        | inr (owned, later) ↦ rw later (
            by_key k.key h.key h.token sys.store _ (expire-lost k.key h.token _ sys.store)
              (laws.expire_other k.key h.key (ttl_seconds server k) sys.store) lost)
      ]
  Step-stays_lost i h (expires {sys} s' keeps) e lost = elim (keeps h.key) [
    | inl same ↦ rw same lost
    | inr gone ↦ rw gone (λ p. cc p)
  ]
