-- ===== src/Locks/Redis/System.antt =====
-- go/internal/locks/redis/redis.go: the documented behaviour of the server's commands, and the steps
-- of clients that share one server.
use cronix.Locks.{taken, busy, lock_error}
use cronix.Prelude.{ℕ, Option, ◌≡◌, none, if◌then◌else◌, some, true, ◌==◌, ◌≢◌, false, suc, ◌⊎◌}
use cronix.Locks.Redis.{Server, Handle, Taken, taken, Link, lock_error, acquire, release, refresh}
use cronix.Prelude.Text.{Text}
use cronix.Prelude.Int.{ℤ, pos}

module _ {S : Type 0} (server : Server S) where
  -- `SET NX` stores a value where there is none and does nothing elsewhere; `DEL` removes a key;
  -- `EXPIRE` keeps a value unless its time is zero, when it removes the key. No command touches
  -- another key.
  pub record Laws : Type 0 where
    pub set_nx_free :
        (key v : Text) (ttl : ℤ) (s : S)
        → server.get key s ≡ none
        → ((server.set_nx key v ttl s).1 ≡ true)
          × (server.get key (server.set_nx key v ttl s).0 ≡ some v)
    pub set_nx_held :
        (key v o : Text) (ttl : ℤ) (s : S)
        → server.get key s ≡ some o
        → server.set_nx key v ttl s ≡ (s, false)
    pub set_nx_other :
        (key v k : Text) (ttl : ℤ) (s : S)
        → k ≢ key
        → server.get k (server.set_nx key v ttl s).0 ≡ server.get k s
    pub del_same : (key : Text) (s : S) → server.get key (server.del key s).0 ≡ none
    pub del_other :
        (key k : Text) (s : S) → k ≢ key → server.get k (server.del key s).0 ≡ server.get k s
    pub expire_later :
        (key : Text) (n : ℕ) (s : S)
        → server.get key (server.expire key (pos (suc n)) s).0 ≡ server.get key s
    pub expire_now : (key : Text) (s : S) → server.get key (server.expire key (pos 0) s).0 ≡ none
    pub expire_answer :
        (key o : Text) (n : ℤ) (s : S) → server.get key s ≡ some o → (server.expire key n s).1 ≡ 1
    pub expire_other :
        (key k : Text) (n : ℤ) (s : S)
        → k ≢ key
        → server.get k (server.expire key n s).0 ≡ server.get k s

  pub record System : Type 0 where
    pub store : S
    pub clients : ℕ → Option Handle

  abbrev pub put : ℕ → Handle → (ℕ → Option Handle) → ℕ → Option Handle
  put i h clients j = if i == j then some h else clients j

  abbrev pub given : ℕ → Taken Handle → (ℕ → Option Handle) → ℕ → Option Handle
  given i (taken h) clients = put i h clients
  given i busy clients = clients
  given i (lock_error err) clients = clients

  -- No client has a handle with this token: tokens are 16 random bytes.
  abbrev pub Fresh : Text → System → Type 0
  Fresh token sys = (i : ℕ) (h : Handle) → sys.clients i ≡ some h → h.token ≢ token

  -- The server holds the handle's token under its key.
  abbrev pub Stored : Handle → System → Type 0
  Stored h sys = server.get h.key sys.store ≡ some h.token

  -- One step of the client `some i`, or `none` for keys that expire. A client with a deadline
  -- attempts until it takes the lock or the time is up, so each of its polls is one attempt.
  pub data Step : Option ℕ → System → System → Type 0 where
    attempts :
        {sys : System} (i : ℕ) (link : Link) (prefix key token : Text) (ttl : ℤ)
        → Fresh token sys
        → Step (some i) sys (
            let (s', got) = acquire server (λ n. link) prefix (some token) none key ttl sys.store in
            record { store = s'; clients = given i got sys.clients })
    releases :
        {sys : System} (i : ℕ) (h : Handle) (link : Link)
        → sys.clients i ≡ some h
        → Step (some i) sys (
            let (s', h', err) = release server link h sys.store in
            record { store = s'; clients = put i h' sys.clients })
    refreshes :
        {sys : System} (i : ℕ) (h : Handle) (link : Link)
        → sys.clients i ≡ some h
        → Step
            (some i)
            sys
            (record { store = (refresh server link h sys.store).0; clients = sys.clients })
    expires :
        {sys : System} (s' : S)
        → ((k : Text) → (server.get k s' ≡ server.get k sys.store) ⊎ (server.get k s' ≡ none))
        → Step none sys (record { store = s'; clients = sys.clients })

  -- Systems that are reached from a server in any state and clients without handles.
  pub data Reachable : System → Type 0 where
    begins : (s : S) → Reachable (record { store = s; clients = λ i. none })
    goes_on :
        {sys sys' : System} {by : Option ℕ} → Reachable sys → Step by sys sys' → Reachable sys'
