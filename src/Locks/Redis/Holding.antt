-- ===== src/Locks/Redis/Holding.antt =====
-- go/internal/locks/redis/redis.go: mutual exclusion, from the attempt that takes the lock on.
use cronix.Prelude.{
  refl, ℕ, ◌≢◌, ◌≡◌, some, ◌≤◌, Option, none, true, Option-cases, Bool-cases, inl, inr, arith, ap,
  ◌/◌, ◌∙◌,
}
use cronix.Locks.Redis.{
  Server, try_once, acquire, Handle, Link, acquire_checked, refresh, validate_key, answer_lost,
  request_lost, new_handle, delivered, or_prefix,
}
use cronix.Locks.Redis.System.{
  Laws, System, Step, Reachable, Fresh, expires, Stored, given, goes_on, attempts, refreshes,
}
use cronix.Prelude.Text.{Text}
use cronix.Locks.Redis.Effects.{Refreshed, refresh-Refreshed}
use cronix.Prelude.Int.{ℤ, pos_part, leℤ, pos}
use cronix.Locks.{Taken, taken}
use cronix.Locks.Redis.Exclusion.{Reachable-Distinct}
use cronix.Locks.Redis.Outcomes.{expire-whole}
use cronix.Locks.Redis.Ownership.{others-keep_lock}

module _ {S : Type 0} (server : Server S) (laws : Laws server) where
  set_nx-taken :
      (key v : Text) (ttl : ℤ) (s : S)
      → (server.set_nx key v ttl s).1 ≡ true
      → server.get key (server.set_nx key v ttl s).0 ≡ some v
  set_nx-taken key v ttl s won = elim (Option-cases (server.get key s)) [
    | inl free ↦ (laws.set_nx_free key v ttl s free).1
    | inr (o, e) ↦ cc (won, ap (λ r. r.1) (laws.set_nx_held key v o ttl s e))
  ]

  try_once-taken :
      (link : Link) (h k : Handle) (s : S)
      → (try_once server link k s).1 ≡ taken h
      → server.get h.key (try_once server link k s).0 ≡ some h.token
  unfolding try_once
  try_once-taken delivered h k s = elim (Bool-cases (server.set_nx k.key k.token k.ttl s).1) [
    | inl won ↦ rw won (λ e. rw (← taken-handle e) (set_nx-taken k.key k.token k.ttl s won))
    | inr lost ↦ rw lost (λ e. cc)
  ]
    where
      taken-handle : Path (Taken Handle) (taken k) (taken h) → k ≡ h
      taken-handle e = cc
  try_once-taken (answer_lost err) h k s = λ e. cc
  try_once-taken (request_lost err) h k s = λ e. cc

  -- An attempt that gives a handle has stored its token.
  acquire-taken :
      (network : ℕ → Link) (prefix key token : Text) (ttl : ℤ) (h : Handle) (s : S)
      → (acquire server network prefix (some token) none key ttl s).1 ≡ taken h
      → server.get h.key (acquire server network prefix (some token) none key ttl s).0
        ≡ some h.token
  unfolding acquire acquire_checked
  acquire-taken network prefix key token ttl h s = elim (Option-cases (validate_key key)) [
    | inr (err, e) ↦ rw (e, acquire) (λ t. cc)
    | inl e ↦ elim (Bool-cases (leℤ ttl (pos 0))) [
      | inl bad ↦ rw (e, bad, acquire) (λ t. cc)
      | inr good ↦
          rw (e, good, acquire)
            (try_once-taken (network 0) h (new_handle server (or_prefix prefix) key token ttl) s)
    ]
  ]

  -- Client `i` holds the lock with the handle `h`: an attempt of it returned the handle, and since
  -- then other clients went on, time passed in which the key did not expire, and the client
  -- refreshed a lock with a TTL of a second or more. It has not released the handle.
  pub data Holds (i : ℕ) (h : Handle) : System server → Type 0 where
    takes :
        {sys : System server} (link : Link) (prefix key token : Text) (ttl : ℤ)
        → Reachable server sys
        → Fresh server token sys
        → (acquire server (λ n. link) prefix (some token) none key ttl sys.store).1 ≡ taken h
        → Holds i h (
            let (s', got) = acquire server (λ n. link) prefix (some token) none key ttl sys.store in
            record { store = s'; clients = given server i got sys.clients })
    others_go_on :
        {sys sys' : System server} {j : ℕ}
        → Holds i h sys
        → Step server (some j) sys sys'
        → j ≢ i
        → Holds i h sys'
    time_passes :
        {sys sys' : System server}
        → Holds i h sys
        → Step server none sys sys'
        → server.get h.key sys'.store ≢ none
        → Holds i h sys'
    renews :
        {sys : System server} (link : Link)
        → Holds i h sys
        → 1000000000 ≤ pos_part h.ttl
        → Holds i h (record { store = (refresh server link h sys.store).0; clients = sys.clients })

  refresh-Stored :
      (link : Link) (h : Handle) (s : S)
      → 1000000000 ≤ pos_part h.ttl
      → server.get h.key s ≡ some h.token
      → server.get h.key (refresh server link h s).0 ≡ some h.token
  unfolding Refreshed
  refresh-Stored link h s long e = elim (refresh-Refreshed server link h s) [
    | inl same ↦ rw same e
    | inr (owned, later) ↦
        rw later (expire-whole server laws h.key (pos_part h.ttl / 1000000000) s (omega arith) ∙ e)
  ]

  given-own :
      (i : ℕ) (h : Handle) (got : Taken Handle) (clients : ℕ → Option Handle)
      → got ≡ taken h
      → given server i got clients i ≡ some h
  given-own i h got clients e = rw e (ground arith)

  still_there :
      (h : Handle) {sys sys' : System server}
      → Step server none sys sys'
      → server.get h.key sys'.store ≢ none
      → (sys'.clients ≡ sys.clients) × (server.get h.key sys'.store ≡ server.get h.key sys.store)
  still_there h (expires s' keeps) there =
      (refl, elim (keeps h.key) [ inl same ↦ same | inr gone ↦ absurd (there gone) ])

  Holds-Stored :
      (i : ℕ) (h : Handle) {sys : System server}
      → Holds i h sys
      → Reachable server sys × (sys.clients i ≡ some h) × Stored server h sys
  Holds-Stored i h (takes {sys} link prefix key token ttl r fresh e) = (
    goes_on r (attempts i link prefix key token ttl fresh),
    given-own i h _ sys.clients e,
    acquire-taken (λ n. link) prefix key token ttl h sys.store e,
  )
  Holds-Stored i h (others_go_on holds step ne) =
      let (r, c, st) = Holds-Stored i h holds in
      let (c', st') = others-keep_lock server laws i h r step ne c st in (goes_on r step, c', st')
  Holds-Stored i h (time_passes holds step there) =
      let (r, c, st) = Holds-Stored i h holds in
      let (same, kept) = still_there h step there in
      (goes_on r step, ap (λ clients. clients i) same ∙ c, kept ∙ st)
  Holds-Stored i h (renews {sys} link holds long) =
      let (r, c, st) = Holds-Stored i h holds in
      (goes_on r (refreshes i h link c), c, refresh-Stored link h sys.store long st)

  -- Clients that share a server which behaves as documented take, refresh and give locks in any
  -- order, with answers and commands lost, keys that expire and handles that are released twice;
  -- tokens are fresh. Then two clients that hold a lock at the same time hold locks of different
  -- keys, where a client holds a lock from an attempt that returned its handle on, while the key
  -- has not expired and the client has done nothing but refresh it, with a TTL of a second or more.
  pub Holds-exclusive :
      {sys : System server} (i j : ℕ) (h k : Handle)
      → i ≢ j
      → Holds i h sys
      → Holds j k sys
      → h.key ≢ k.key
  Holds-exclusive i j h k ne holds others =
      let (r, ch, sh) = Holds-Stored i h holds in
      let (r', ck, sk) = Holds-Stored j k others in
      let differ : h.token ≢ k.token = Reachable-Distinct server r i j h k ch ck ne in
      λ same. differ cc
