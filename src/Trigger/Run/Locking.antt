-- ===== src/Trigger/Run/Locking.antt =====
-- What the shim does while it holds the lock of a job.
use cronix.Prelude.{
  ℕ, Bool, true, false, List, ◌≡◌, All, ◌++◌, suc, some, [], zero, arith, All-append, ◌∷◌, refl,
  Bool-cases, ltb, inl, inr, Option, ◌+◌, ◌<◌, ◌-◌, none,
}
use cronix.Prelude.Text.{Text, equal, codes}
use cronix.Prelude.Int.{ℤ, pos_part}
use cronix.Trigger.Spec.{SpecFile}
use cronix.Trigger.Run.{
  World, Verdict, Result, success, app_rejected, retry, crash, wait_then, fire_with, fire_signed,
  FireTimes, Fired, Event, acquired, released, sent, slept, logged, fire, classify, attempt_loop,
  run_attempts, run_locked, with_lock, Acquired, contended, acquire_failed, held, add64,
}
use cronix.Trigger.{seconds}

-- From the nanoseconds that are left of the lock, or `none` where it is not held: a request is sent
-- only while the lock is held and is over before the lock's time has passed, the lock is taken only
-- when it is free and released only by its holder, and at the end it is not held.
abbrev pub IsGuarded : Option ℕ → List Event → Type 0
IsGuarded none [] = Unit
IsGuarded (some left) [] = ⊥
IsGuarded none (acquired key ttl ∷ events) = IsGuarded (some (pos_part ttl)) events
IsGuarded (some left) (acquired key ttl ∷ events) = ⊥
IsGuarded none (released ∷ events) = ⊥
IsGuarded (some left) (released ∷ events) = IsGuarded none events
IsGuarded none (sent attempt req took ∷ events) = ⊥
IsGuarded (some left) (sent attempt req took ∷ events) =
    (took < left) × IsGuarded (some (left - took)) events
IsGuarded none (slept d ∷ events) = ⊥
IsGuarded (some left) (slept d ∷ events) = IsGuarded (some (left - pos_part d)) events
IsGuarded none (logged message ∷ events) = IsGuarded none events
IsGuarded (some left) (logged message ∷ events) = IsGuarded (some left) events

-- The nanoseconds that requests and waits take.
unfoldable pub spent : List Event → ℕ
spent [] = 0
spent (sent attempt req took ∷ events) = took + spent events
spent (slept d ∷ events) = pos_part d + spent events
spent (_ ∷ events) = spent events

-- An event of the attempts, which neither takes nor releases the lock.
abbrev pub IsInner : Event → Type 0
IsInner (acquired key ttl) = ⊥
IsInner released = ⊥
IsInner _ = Unit

IsGuarded-inner :
    (inner : List Event) (left : ℕ)
    → All IsInner inner
    → spent inner < left
    → IsGuarded (some left) (inner ++ released ∷ [])
unfolding spent
IsGuarded-inner [] left h lt = tt
IsGuarded-inner (acquired key ttl ∷ inner) left h lt = absurd h.0
IsGuarded-inner (released ∷ inner) left h lt = absurd h.0
IsGuarded-inner (sent attempt req took ∷ inner) left h lt =
    (omega arith, IsGuarded-inner inner (left - took) h.1 (omega arith))
IsGuarded-inner (slept d ∷ inner) left h lt =
    IsGuarded-inner inner (left - pos_part d) h.1 (omega arith)
IsGuarded-inner (logged message ∷ inner) left h lt = IsGuarded-inner inner left h.1 lt

module _ (w : World) (secrets : List Text) (spec : SpecFile) (run_id : Text)
    (times : FireTimes) where
  fire-IsInner : (attempt : ℕ) → All IsInner (fire w secrets spec run_id attempt times).1
  unfolding fire fire_with fire_signed
  fire-IsInner attempt = ground arith

  wait_then-IsInner :
      (attempt last_status : ℕ) (backoff : ℤ) (later : Result × List Event)
      → All IsInner later.1
      → All IsInner (wait_then w run_id attempt backoff last_status later).1
  unfolding wait_then
  wait_then-IsInner attempt last_status backoff later h = ground arith

  attempt_loop-IsInner :
      (most : ℕ) (lo hi : ℤ) (left attempt : ℕ) (last : Fired)
      → All IsInner (attempt_loop w secrets spec run_id times most lo hi left attempt last).1
  unfolding attempt_loop
  attempt_loop-IsInner most lo hi zero attempt last = (tt, tt)
  attempt_loop-IsInner most lo hi (suc left) attempt last =
      let fired = (fire w secrets spec run_id attempt times).0 in
      by_verdict (classify fired) refl (fire-IsInner attempt)
        (attempt_loop-IsInner most lo hi left (suc attempt) fired)
    where
      by_verdict :
          (v : Verdict)
          → classify (fire w secrets spec run_id attempt times).0 ≡ v
          → All IsInner (fire w secrets spec run_id attempt times).1
          → All IsInner
              (attempt_loop w secrets spec run_id times most lo hi left
                (suc attempt)
                (fire w secrets spec run_id attempt times).0).1
          → All IsInner
              (attempt_loop w secrets spec run_id times most lo hi (suc left) attempt last).1
      by_verdict success e h k = rw (e, attempt_loop) (All-append IsInner _ _ h (tt, tt))
      by_verdict app_rejected e h k = rw (e, attempt_loop) (All-append IsInner _ _ h (tt, tt))
      by_verdict crash e h k = rw (e, attempt_loop) (All-append IsInner _ _ h tt)
      by_verdict retry e h k = elim (Bool-cases (ltb attempt most)) [
        | inl more ↦
            rw (e, more, attempt_loop)
              (All-append IsInner _ _ h (tt, wait_then-IsInner attempt _ _ _ k))
        | inr last_one ↦ rw (e, last_one, attempt_loop) (All-append IsInner _ _ h (tt, k))
      ]

  run_attempts-IsInner : All IsInner (run_attempts w secrets spec run_id times).1
  unfolding run_attempts
  run_attempts-IsInner = attempt_loop-IsInner _ _ _ _ _ _

  with_lock-IsGuarded :
      (outcome : Acquired) (replace : Bool) (key : Text) (ttl : ℤ) (body : Result × List Event)
      → All IsInner body.1
      → spent body.1 < pos_part ttl
      → IsGuarded none (with_lock outcome replace key ttl run_id body).1
  unfolding with_lock
  with_lock-IsGuarded contended replace key ttl body h lt = tt
  with_lock-IsGuarded acquire_failed replace key ttl body h lt = tt
  with_lock-IsGuarded held true key ttl body h lt = IsGuarded-inner body.1 (pos_part ttl) h lt
  with_lock-IsGuarded held false key ttl body h lt = IsGuarded-inner body.1 (pos_part ttl) h lt

  pub run_locked-IsGuarded :
      (lock : Bool → Text → ℤ → ℤ → Acquired)
      → w.lock ≡ some lock
      → equal spec.job.policy.concurrency (codes "Allow") ≡ false
      → spent (run_attempts w secrets spec run_id times).1
        < pos_part (add64 (seconds spec.job.policy.timeout_seconds) 30000000000)
      → IsGuarded none (run_locked w secrets spec run_id times).1
  unfolding run_locked
  run_locked-IsGuarded lock e h lt =
      simp (h, e, run_locked) (with_lock-IsGuarded _ _ _ _ _ run_attempts-IsInner lt)
