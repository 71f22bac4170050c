-- ===== src/Locks/Redis.antt =====
-- go/internal/locks/redis/redis.go: the lock that is a key of a Redis server. The server is a
-- parameter; what others do to it between two polls is an argument.
pub mod System
pub mod Effects
pub mod Exclusion
pub mod Ownership
pub mod Outcomes
pub mod Holding
use cronix.Prelude.{
  ℕ, Bool, Option, List, none, some, ◌∷◌, ◌++◌, if◌then◌else◌, all, suc, false, true, [], not, ◌==◌,
  ◌/◌, ◌||◌,
}
use cronix.Locks.{Taken, taken, busy, lock_error}
use cronix.Prelude.Text.{Text, codes, equal}
use cronix.Prelude.Int.{ℤ, leℤ, pos, pos_part}

pub data Fault : Type 0 where
  deadline_exceeded : Fault
  broken : Text → Fault

-- What becomes of a command: it runs and its answer arrives, it runs and the answer is lost, or it
-- does not reach the server.
pub data Link : Type 0 where
  delivered : Link
  answer_lost request_lost : Fault → Link

pub data Reply (A : Type 0) : Type 0 where
  answer : A → Reply A
  fault : Fault → Reply A

-- The commands that the package sends, on the state `S` of the server: `SET key value NX EX ttl`,
-- `GET`, `DEL` and `EXPIRE` with seconds.
pub record Server (S : Type 0) : Type 0 where
  pub set_nx : Text → Text → ℤ → S → S × Bool
  pub get : Text → S → Option Text
  pub del : Text → S → S × ℕ
  pub expire : Text → ℤ → S → S × ℕ

pub record Handle : Type 0 where
  pub key : Text
  pub token : Text
  pub ttl : ℤ
  pub released : Bool

unfoldable pub validate_key : Text → Option Text
validate_key [] = some (codes "redis lock: key must be non-empty")
validate_key (c ∷ cs) =
    if all (λ x. not (x == 32 || x == 13 || x == 10 || x == 0)) (c ∷ cs)
    then none
    else some (codes "redis lock: key contains illegal whitespace/null")

-- `New`: the prefix of the keys
abbrev pub or_prefix : Text → Text
or_prefix [] = codes "cronix:lock:"
or_prefix (c ∷ cs) = c ∷ cs

abbrev pub fault_text : Fault → Text
fault_text deadline_exceeded = codes "context deadline exceeded"
fault_text (broken err) = err

module _ {S : Type 0} (server : Server S) where
  -- A command at the state `s`, over the network.
  abbrev pub over : {A : Type 0} → Link → S × A → S → S × Reply A
  over delivered (s', a) s = (s', answer a)
  over (answer_lost err) (s', a) s = (s', fault err)
  over (request_lost err) (s', a) s = (s, fault err)

  -- `releaseScript`, which the server runs as one step
  unfoldable pub release_script : Text → Text → S → S × ℕ
  release_script key token s = elim (server.get key s) [
    | none ↦ (s, 0)
    | some owner ↦ if equal owner token then server.del key s else (s, 0)
  ]

  -- `refreshScript`
  unfoldable pub refresh_script : Text → Text → ℤ → S → S × ℕ
  refresh_script key token seconds s = elim (server.get key s) [
    | none ↦ (s, 0)
    | some owner ↦ if equal owner token then server.expire key seconds s else (s, 0)
  ]

  abbrev pub set_nx_over : Link → Handle → S → S × Reply Bool
  set_nx_over link h s = over link (server.set_nx h.key h.token h.ttl s) s

  -- The loop with a deadline. `others` is what happens to the server in each wait of 100 ms before
  -- the deadline; `network n` is what becomes of the command of poll `n`.
  unfoldable pub poll : (ℕ → Link) → Handle → ℕ → List (S → S) → S → S × Taken Handle
  poll network h n [] s =
      let (s', reply) = set_nx_over (network n) h s in
      elim reply [
        | fault deadline_exceeded ↦ (s', busy)
        | fault (broken err) ↦
            (s', lock_error (codes "redis lock: SETNX " ++ (h.key ++ (codes ": " ++ err))))
        | answer true ↦ (s', taken h)
        | answer false ↦ (s', busy)
      ]
  poll network h n (other ∷ others) s =
      let (s', reply) = set_nx_over (network n) h s in
      elim reply [
        | fault deadline_exceeded ↦ (s', busy)
        | fault (broken err) ↦
            (s', lock_error (codes "redis lock: SETNX " ++ (h.key ++ (codes ": " ++ err))))
        | answer true ↦ (s', taken h)
        | answer false ↦ poll network h (suc n) others (other s')
      ]

  -- The single attempt with no deadline.
  unfoldable pub try_once : Link → Handle → S → S × Taken Handle
  try_once link h s =
      let (s', reply) = set_nx_over link h s in
      elim reply [
        | fault err ↦ (
          s',
          lock_error (codes "redis lock: SETNX " ++ (h.key ++ (codes ": " ++ fault_text err))),
        )
        | answer true ↦ (s', taken h)
        | answer false ↦ (s', busy)
      ]

  abbrev pub new_handle : Text → Text → Text → ℤ → Handle
  new_handle prefix key token ttl = record {
    key = prefix ++ key;
    token = token;
    ttl = ttl;
    released = false;
  }

  unfoldable pub acquire_checked :
      (ℕ → Link) → Text → Option Text → Option (List (S → S)) → Text → ℤ → S → S × Taken Handle
  unfolding poll try_once
  acquire_checked network prefix none deadline key ttl s =
      (s, lock_error (codes "redis lock: gen token"))
  acquire_checked network prefix (some token) none key ttl s =
      try_once (network 0) (new_handle prefix key token ttl) s
  acquire_checked network prefix (some token) (some others) key ttl s =
      poll network (new_handle prefix key token ttl) 0 others s

  -- `Acquire`. `token` is the random one, `none` where the generator fails; `deadline` is `none`
  -- where the context has none.
  unfoldable pub acquire :
      (ℕ → Link) → Text → Option Text → Option (List (S → S)) → Text → ℤ → S → S × Taken Handle
  unfolding acquire_checked validate_key
  acquire network prefix token deadline key ttl s = elim (validate_key key) [
    | some err ↦ (s, lock_error err)
    | none ↦
        if leℤ ttl (pos 0)
        then (s, lock_error (codes "redis lock: ttl must be > 0"))
        else acquire_checked network (or_prefix prefix) token deadline key ttl s
  ]

  abbrev release_error : Text → Reply ℕ → Option Text
  release_error key (answer n) = none
  release_error key (fault err) =
      some (codes "redis lock: release " ++ (key ++ (codes ": " ++ fault_text err)))

  -- `Release`
  unfoldable pub release : Link → Handle → S → S × Handle × Option Text
  unfolding release_script
  release link h s =
      if h.released
      then (s, h, none)
      else let (s', reply) = over link (release_script h.key h.token s) s in
        (s', record h { released = true }, release_error h.key reply)

  abbrev refresh_error : Text → Reply ℕ → Option Text
  refresh_error key (answer n) =
      if n == 0 then some (codes "redis lock: lost lock (token mismatch)") else none
  refresh_error key (fault err) =
      some (codes "redis lock: refresh " ++ (key ++ (codes ": " ++ fault_text err)))

  -- `int(h.ttl.Seconds())`, where the TTL is a number of nanoseconds
  abbrev pub ttl_seconds : Handle → ℤ
  ttl_seconds h = pos (pos_part h.ttl / 1000000000)

  -- `Refresh`
  unfoldable pub refresh : Link → Handle → S → S × Option Text
  unfolding refresh_script
  refresh link h s =
      if h.released
      then (s, some (codes "redis lock: refresh after release"))
      else let (s', reply) = over link (refresh_script h.key h.token (ttl_seconds h) s) s in
        (s', refresh_error h.key reply)
