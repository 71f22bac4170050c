-- ===== src/Tests/Locks.antt =====
-- A server that holds its keys in memory, that it behaves as documented, and clients that use it.
use cronix.Prelude.{
  ℕ, Option, none, ◌≡◌, if◌then◌else◌, Bool, some, ◌≢◌, true, suc, Bool-cases, Option-cases, [],
  false, inl, refl, inr, zero, arith, ap, List, ◌∙◌, ◌≤◌, ◌∷◌, ◌<◌,
}
use cronix.Locks.Redis.Exclusion.{put-cases}
use cronix.Locks.Redis.Ownership.{others-keep_lock, Step-stays_lost}
use cronix.Locks.Redis.Outcomes.{refresh-outcome, acquire-outcome}
use cronix.Locks.{taken}
use cronix.Locks.Redis.{
  Server, Handle, delivered, new_handle, acquire, or_prefix, acquire_checked, try_once,
  validate_key, refresh,
}
use cronix.Locks.Redis.System.{
  attempts, expires, begins, goes_on, Laws, System, Reachable, put, Stored, Step, Fresh,
}
use cronix.Prelude.Text.{Text, equal_refl, codes, equal, equal_iff}
use cronix.Prelude.Int.{ℤ, pos, negsuc}
use cronix.Locks.Redis.Holding.{Holds, Holds-exclusive, takes, others_go_on}

abbrev Store : Type 0
Store = Text → Option Text

abbrev store_value : Text → Option Text → Store → Store
store_value key v s k = if equal k key then v else s k

abbrev set_nx_value : Option Text → Text → Text → Store → Store × Bool
set_nx_value none key v s = (store_value key (some v) s, true)
set_nx_value (some o) key v s = (s, false)

abbrev expire_value : ℤ → Text → Store → Store × ℕ
expire_value (pos (suc n)) key s = (s, elim (s key) [ none ↦ 0 | some o ↦ 1 ])
expire_value _ key s = (store_value key none s, elim (s key) [ none ↦ 0 | some o ↦ 1 ])

abbrev in_memory : Server Store
in_memory = record {
  set_nx = λ key v ttl s. set_nx_value (s key) key v s;
  get = λ key s. s key;
  del = λ key s. (store_value key none s, elim (s key) [ none ↦ 0 | some o ↦ 1 ]);
  expire = λ key n s. expire_value n key s;
}

store_value-same : (key : Text) (v : Option Text) (s : Store) → store_value key v s key ≡ v
store_value-same key v s = rw (equal_refl key) refl

store_value-other :
    (key k : Text) (v : Option Text) (s : Store) → k ≢ key → store_value key v s k ≡ s k
store_value-other key k v s ne = elim (Bool-cases (equal k key)) [
  | inl e ↦ absurd (ne ((equal_iff k key).0 e))
  | inr e ↦ rw e refl
]

expire_value-answer :
    (key o : Text) (n : ℤ) (s : Store) → s key ≡ some o → (expire_value n key s).1 ≡ 1
expire_value-answer key o (pos zero) s e = rw e refl
expire_value-answer key o (pos (suc n)) s e = rw e refl
expire_value-answer key o (negsuc n) s e = rw e refl

expire_value-other : (key k : Text) (n : ℤ) (s : Store) → k ≢ key → (expire_value n key s).0 k ≡ s k
expire_value-other key k (pos zero) s ne = store_value-other key k none s ne
expire_value-other key k (pos (suc n)) s ne = refl
expire_value-other key k (negsuc n) s ne = store_value-other key k none s ne

abbrev in_memory_laws : Laws in_memory
in_memory_laws = record {
  set_nx_free = λ key v ttl s e. rw e (refl, store_value-same key (some v) s);
  set_nx_held = λ key v o ttl s e. rw e refl;
  set_nx_other = λ key v k ttl s ne. elim (Option-cases (s key)) [
    | inl e ↦ rw e (store_value-other key k (some v) s ne)
    | inr (o, e) ↦ rw e refl
  ];
  del_same = λ key s. store_value-same key none s;
  del_other = λ key k s ne. store_value-other key k none s ne;
  expire_later = λ key n s. refl;
  expire_now = λ key s. store_value-same key none s;
  expire_answer = expire_value-answer;
  expire_other = expire_value-other;
}

abbrev nightly_key : Text
nightly_key = codes "billing.nightly"

abbrev minute : ℤ
minute = pos 60000000000

abbrev first_handle : Handle
first_handle = new_handle in_memory (or_prefix []) nightly_key (codes "a1") minute

abbrev second_handle : Handle
second_handle = new_handle in_memory (or_prefix []) nightly_key (codes "b2") minute

-- No client has a handle; the first takes the lock; the second attempts in vain.
abbrev idle : System in_memory
idle = record { store = λ k. none; clients = λ i. none }

abbrev one_holder : System in_memory
one_holder = record {
  store = store_value first_handle.key (some (codes "a1")) (λ k. none);
  clients = put in_memory 0 first_handle (λ i. none);
}

tokens_differ : codes "a1" ≢ codes "b2"
unfolding equal
tokens_differ p = cc ((equal_iff (codes "a1") (codes "b2")).1 p)

one_holder-Fresh :
    (s : Store) → Fresh in_memory (codes "b2") (record { store = s; clients = one_holder.clients })
one_holder-Fresh s i h e t = elim (put-cases in_memory 0 first_handle (λ j. none) i h e) [
  | inl (at, same) ↦ tokens_differ (ap (λ k. k.token) same ∙ t)
  | inr (at, never) ↦ absurd (cc never)
]

one_holder-Step : Step in_memory (some 0) idle one_holder
unfolding acquire acquire_checked try_once validate_key equal
one_holder-Step =
    attempts {sys = idle} 0 delivered [] nightly_key (codes "a1") minute (λ i h e. cc e)

one_holder-Reachable : Reachable in_memory one_holder
one_holder-Reachable = goes_on (begins (λ k. none)) one_holder-Step

refused-Step : Step in_memory (some 1) one_holder one_holder
unfolding acquire acquire_checked try_once validate_key equal
refused-Step =
    attempts {sys = one_holder} 1 delivered [] nightly_key (codes "b2") minute
      (one_holder-Fresh one_holder.store)

-- The first client's key expires, and the second takes the lock.
abbrev expired : System in_memory
expired = record { store = λ k. none; clients = one_holder.clients }

abbrev succeeded : System in_memory
succeeded = record {
  store = store_value second_handle.key (some (codes "b2")) (λ k. none);
  clients = put in_memory 1 second_handle one_holder.clients;
}

expired-Step : Step in_memory none one_holder expired
expired-Step = expires {sys = one_holder} (λ k. none) (λ k. inr refl)

succeeded-Step : Step in_memory (some 1) expired succeeded
unfolding acquire acquire_checked try_once validate_key equal
succeeded-Step =
    attempts {sys = expired} 1 delivered [] nightly_key (codes "b2") minute
      (one_holder-Fresh (λ k. none))

-- The second client takes the lock of another job.
abbrev hourly_key : Text
hourly_key = codes "billing.hourly"

abbrev hourly_handle : Handle
hourly_handle = new_handle in_memory (or_prefix []) hourly_key (codes "b2") minute

abbrev two_holders : System in_memory
two_holders = record {
  store = store_value hourly_handle.key (some (codes "b2")) one_holder.store;
  clients = put in_memory 1 hourly_handle one_holder.clients;
}

first-Holds : Holds in_memory in_memory_laws 0 first_handle one_holder
unfolding acquire acquire_checked try_once validate_key equal
first-Holds =
    takes {sys = idle} delivered [] nightly_key (codes "a1") minute (begins (λ k. none))
      (λ i h e. cc e) refl

hourly-Step : Step in_memory (some 1) one_holder two_holders
unfolding acquire acquire_checked try_once validate_key equal
hourly-Step =
    attempts {sys = one_holder} 1 delivered [] hourly_key (codes "b2") minute
      (one_holder-Fresh one_holder.store)

second-Holds : Holds in_memory in_memory_laws 1 hourly_handle two_holders
unfolding acquire acquire_checked try_once validate_key equal
second-Holds =
    takes {sys = one_holder} delivered [] hourly_key (codes "b2") minute one_holder-Reachable
      (one_holder-Fresh one_holder.store) refl

Holds-exclusive_example : first_handle.key ≢ hourly_handle.key
Holds-exclusive_example =
    Holds-exclusive in_memory in_memory_laws 0 1 first_handle hourly_handle (omega arith)
      (others_go_on first-Holds hourly-Step (omega arith)) second-Holds

others-keep_lock_example :
    (one_holder.clients 0 ≡ some first_handle) × Stored in_memory first_handle one_holder
unfolding equal
others-keep_lock_example =
    others-keep_lock in_memory in_memory_laws 0 first_handle one_holder-Reachable refused-Step
      (omega arith) refl refl

Step-stays_lost_example : ¬ Stored in_memory first_handle succeeded
Step-stays_lost_example =
    Step-stays_lost in_memory in_memory_laws 0 first_handle succeeded-Step refl (λ p. cc p)

-- A TTL of half a second.
abbrev short_handle : Handle
short_handle = new_handle in_memory (or_prefix []) nightly_key (codes "a1") (pos 500000000)

refresh-outcome_example :
    ((one_holder.store short_handle.key ≢ some (codes "a1"))
      → refresh in_memory delivered short_handle one_holder.store
        ≡ (one_holder.store, some (codes "redis lock: lost lock (token mismatch)")))
    × ((one_holder.store short_handle.key ≡ some (codes "a1"))
        → ((refresh in_memory delivered short_handle one_holder.store).1 ≡ none)
          × ((1000000000 ≤ 500000000
                → (refresh in_memory delivered short_handle one_holder.store).0 short_handle.key
                  ≡ some (codes "a1"))
              × (500000000 < 1000000000
                  → (refresh in_memory delivered short_handle one_holder.store).0 short_handle.key
                    ≡ none)))
refresh-outcome_example =
    refresh-outcome in_memory in_memory_laws short_handle one_holder.store refl

-- The first wait changes nothing; in the second the key expires.
abbrev waits : List (Store → Store)
waits = (λ s. s) ∷ (λ s k. none) ∷ []

acquire-outcome_example :
    ((acquire in_memory
        (λ i. delivered)
        []
        (some (codes "b2"))
        (some waits)
        nightly_key
        minute
        one_holder.store).1
      ≡ taken second_handle)
    × ((acquire in_memory
            (λ i. delivered)
            []
            (some (codes "b2"))
            (some waits)
            nightly_key
            minute
            one_holder.store).0
          second_handle.key
        ≡ some (codes "b2"))
unfolding validate_key
acquire-outcome_example =
    (acquire-outcome in_memory in_memory_laws [] nightly_key (codes "b2") minute waits
        one_holder.store refl refl).0
      (inr (inr refl))
