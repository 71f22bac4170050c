-- ===== src/Locks/Flock.antt =====
-- go/internal/locks/flock/flock.go: the lock that is a file of the host, with a holder file beside
-- it. The file locks of gofrs/flock, the file system and the signal are parameters over the state
-- `S` of the host; what others do to it between two polls is an argument.
pub mod Replace
use cronix.Locks.{
  taken, busy, lock_error, Holder, Taken, Killed, kill_failed, signalled, process_not_found,
}
use cronix.Prelude.Int.{pos, negsuc, ℤ}
use cronix.Prelude.{
  ℕ, none, some, List, Option, Bool, ◌++◌, ◌∷◌, if◌then◌else◌, false, all, ◌==◌, [], not, true,
  ◌||◌,
}
use cronix.Prelude.Text.{Text, codes, split, cut, equal, trim_space}
use cronix.Auth.{show_int}
use cronix.Prelude.Text.Decimal.{parse_int}

-- The outcome of `TryLock`
pub data Tried : Type 0 where
  got held_elsewhere : Tried
  try_failed : Text → Tried

-- Writing and removing a holder file is best effort, so that its errors do not show.
pub record Os (S : Type 0) : Type 0 where
  pub try_lock : Text → S → S × Tried
  pub unlock : Text → S → S × Option Text
  pub write_file : Text → Text → S → S
  pub read_file : Text → S → Option Text
  pub remove_file : Text → S → S
  pub kill : ℤ → S → S × Killed

pub record Flock : Type 0 where
  pub dir : Text
  pub host : Text
  pub pid : ℤ

pub record FileHandle : Type 0 where
  pub lock_path : Text
  pub holder_path : Text
  pub released : Bool

pub data Ending : Type 0 where
  deadline_exceeded canceled : Ending

-- A context without a deadline, or the waits until it is done and how it ends.
pub data Context (S : Type 0) : Type 0 where
  no_deadline : Context S
  done_after : List (S → S) → Ending → Context S

unfoldable pub validate_key : Text → Option Text
validate_key [] = some (codes "flock: key must be non-empty")
validate_key (c ∷ cs) =
    if all (λ x. not (x == b'/' || x == 92 || x == 0)) (c ∷ cs)
    then none
    else some (codes "flock: key contains illegal characters")

-- `holderPath`
abbrev pub holder_path : Flock → Text → Text
holder_path b key = b.dir ++ (b'/' ∷ (key ++ codes ".holder"))

abbrev pub lock_path : Flock → Text → Text
lock_path b key = b.dir ++ (b'/' ∷ (key ++ codes ".lock"))

-- `==` on integers
abbrev pub same_int : ℤ → ℤ → Bool
same_int (pos m) (pos n) = m == n
same_int (negsuc m) (negsuc n) = m == n
same_int _ _ = false

-- The contents of a holder file.
unfoldable pub holder_text : Holder → Text
unfolding show_int
holder_text h = codes "pid=" ++ (show_int h.pid ++ (10 ∷ (codes "host=" ++ (h.host ++ (10 ∷ [])))))

-- The loop over the lines of a holder file; a pid that does not parse ends it.
unfoldable pub read_lines : List Text → Holder → Option Holder
read_lines [] h = some h
read_lines (l ∷ ls) h = elim (cut b'=' l) [
  | none ↦ read_lines ls h
  | some (k, v) ↦
      if equal k (codes "pid")
      then elim (parse_int (trim_space v)) [
        | none ↦ none
        | some n ↦ read_lines ls (record h { pid = n })
      ]
      else if equal k (codes "host")
      then read_lines ls (record h { host = trim_space v })
      else read_lines ls h
]

abbrev with_pid : Holder → Option Holder
with_pid h = elim h.pid [ pos n ↦ (if n == 0 then none else some h) | negsuc n ↦ some h ]

-- `readHolder`, on the contents
unfoldable pub parse_holder : Text → Option Holder
unfolding read_lines
parse_holder raw = elim (read_lines (split 10 raw) (record { pid = pos 0; host = [] })) [
  | none ↦ none
  | some h ↦ with_pid h
]

module _ {S : Type 0} (os : Os S) (b : Flock) where
  -- `makeHandle`
  unfoldable pub make_handle : Text → S → S × Taken FileHandle
  unfolding holder_text
  make_handle key s = (
    os.write_file (holder_path b key) (holder_text (record { pid = b.pid; host = b.host })) s,
    taken
        (record { lock_path = lock_path b key; holder_path = holder_path b key; released = false }),
  )

  abbrev try_error : Text → Text → Text
  try_error key err = codes "flock: try-lock " ++ (lock_path b key ++ (codes ": " ++ err))

  abbrev pub ended : Ending → Taken FileHandle
  ended deadline_exceeded = busy
  ended canceled = lock_error (codes "context canceled")

  -- The loop with a deadline.
  unfoldable pub poll : Text → List (S → S) → Ending → S → S × Taken FileHandle
  unfolding make_handle
  poll key [] ending s =
      let (s', tried) = os.try_lock (lock_path b key) s in
      elim tried [
        | got ↦ make_handle key s'
        | held_elsewhere ↦ (s', ended ending)
        | try_failed err ↦ (s', lock_error (try_error key err))
      ]
  poll key (other ∷ others) ending s =
      let (s', tried) = os.try_lock (lock_path b key) s in
      elim tried [
        | got ↦ make_handle key s'
        | held_elsewhere ↦ poll key others ending (other s')
        | try_failed err ↦ (s', lock_error (try_error key err))
      ]

  -- The single attempt with no deadline.
  unfoldable pub try_once : Text → S → S × Taken FileHandle
  unfolding make_handle
  try_once key s =
      let (s', tried) = os.try_lock (lock_path b key) s in
      elim tried [
        | got ↦ make_handle key s'
        | held_elsewhere ↦ (s', busy)
        | try_failed err ↦ (s', lock_error (try_error key err))
      ]

  unfoldable acquire_in : Context S → Text → S → S × Taken FileHandle
  unfolding poll try_once
  acquire_in no_deadline key s = try_once key s
  acquire_in (done_after others ending) key s = poll key others ending s

  -- `Acquire`
  unfoldable pub acquire : Context S → Text → S → S × Taken FileHandle
  unfolding acquire_in validate_key
  acquire ctx key s = elim (validate_key key) [
    | some err ↦ (s, lock_error err)
    | none ↦ acquire_in ctx key s
  ]

  -- The polls behind the signal: the context at each of them, with what happens in the wait before
  -- the next one. They end when the time for the exit is up (`none`), or when the context is done.
  unfoldable pub poll_exit :
      Context S → List ((S → S) × Context S) → Option Text → Text → S → S × Taken FileHandle
  unfolding acquire
  poll_exit ctx [] ends key s =
      let (s', outcome) = acquire ctx key s in
      elim outcome [
        | taken h ↦ (s', taken h)
        | lock_error err ↦ (s', lock_error err)
        | busy ↦ (s', elim ends [ none ↦ busy | some err ↦ lock_error err ])
      ]
  poll_exit ctx ((other, ctx') ∷ rounds) ends key s =
      let (s', outcome) = acquire ctx key s in
      elim outcome [
        | taken h ↦ (s', taken h)
        | lock_error err ↦ (s', lock_error err)
        | busy ↦ poll_exit ctx' rounds ends key (other s')
      ]

  -- The signal to the holder and what follows it.
  unfoldable pub evict :
      Holder
      → Context S
      → List ((S → S) × Context S)
      → Option Text
      → Text
      → S
      → S × Taken FileHandle
  unfolding poll_exit show_int
  evict holder ctx rounds ends key s =
      let (s', killed) = os.kill holder.pid s in
      elim killed [
        | kill_failed ↦ (s', lock_error (codes "flock: SIGTERM holder pid=" ++ show_int holder.pid))
        | signalled ↦ poll_exit ctx rounds ends key s'
        | process_not_found ↦ poll_exit ctx rounds ends key s'
      ]

  -- What a contended attempt leads to: the holder of record is signalled, if it is another process
  -- of this host.
  unfoldable pub replace_holder :
      Option Holder
      → Context S
      → List ((S → S) × Context S)
      → Option Text
      → Text
      → S
      → S × Taken FileHandle
  unfolding evict
  replace_holder none ctx rounds ends key s = (s, busy)
  replace_holder (some holder) ctx rounds ends key s =
      if not (equal holder.host b.host)
      then (s, busy)
      else if same_int holder.pid b.pid
      then (s, busy)
      else evict holder ctx rounds ends key s

  abbrev pub holder_of : Option Text → Option Holder
  holder_of none = none
  holder_of (some raw) = parse_holder raw

  -- `AcquireOrReplace`, where `start` is the context at its first attempt
  unfoldable pub acquire_or_replace :
      Context S
      → Context S
      → List ((S → S) × Context S)
      → Option Text
      → Text
      → S
      → S × Taken FileHandle
  unfolding acquire replace_holder parse_holder
  acquire_or_replace start ctx rounds ends key s =
      let (s', outcome) = acquire start key s in
      elim outcome [
        | taken h ↦ (s', taken h)
        | lock_error err ↦ (s', lock_error err)
        | busy ↦
            replace_holder (holder_of (os.read_file (holder_path b key) s')) ctx rounds ends key s'
      ]

-- `Release` and `Refresh` of a handle
unfoldable pub release : {S : Type 0} → Os S → FileHandle → S → S × FileHandle × Option Text
release os h s =
    if h.released
    then (s, h, none)
    else let (s', err) = os.unlock h.lock_path (os.remove_file h.holder_path s) in
      (s', record h { released = true }, err)

unfoldable pub refresh : FileHandle → Option Text
refresh h = if h.released then some (codes "flock: refresh after release") else none
