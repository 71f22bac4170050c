-- ===== src/Policy.antt =====
-- go/internal/policy/policy.go: the name of a schedule and the change-detection hash.
pub mod Names
use Prim.Native.Nat.{bit_xor}
use cronix.Prelude.{ℕ, zero, suc, ◌*◌, ◌/◌, ◌%◌, [], ◌∷◌, ◌++◌}
use cronix.Prelude.Int.{pos}
use cronix.Prelude.Text.{Text, codes}
use cronix.Prelude.Text.Decimal.{decimal}
use cronix.Manifest.{NormalizedJob}
use cronix.Manifest.Canonical.{canonicalize, hex_digit}

abbrev pub schedule_prefix : Text
schedule_prefix = codes "cronix-"

-- `cronix-<app>-<job>-<idx>`
unfoldable pub schedule_name : Text → Text → ℕ → Text
schedule_name app job idx = schedule_prefix ++ (app ++ (b'-' ∷ (job ++ (b'-' ∷ decimal idx))))

-- The constants as the source writes them.
abbrev pub fnv_offset64 : ℕ
fnv_offset64 = 1469598103934665603

abbrev pub fnv_prime64 : ℕ
fnv_prime64 = 1099511628211

-- `h ^= x; h *= fnvPrime64` on `uint64`
unfoldable pub mix : ℕ → ℕ → ℕ
mix h x = bit_xor h x * fnv_prime64 % 18446744073709551616

unfoldable pub mix_bytes : ℕ → Text → ℕ
unfolding mix
mix_bytes h [] = h
mix_bytes h (x ∷ xs) = mix_bytes (mix h x) xs

-- The last `n` hexadecimal digits of `h`, before `acc`.
unfoldable pub hex_onto : ℕ → ℕ → Text → Text
hex_onto zero h acc = acc
hex_onto (suc n) h acc = hex_onto n (h / 16) (hex_digit (h % 16) ∷ acc)

-- `%016x` of a word of 64 bits
unfoldable pub hex16 : ℕ → Text
unfolding hex_onto
hex16 h = hex_onto 16 h []

unfoldable pub hash : NormalizedJob → ℕ → Text
unfolding mix mix_bytes hex16
hash job idx =
    let bytes = canonicalize (record { version = pos 1; app = codes "_hash_"; jobs = job ∷ [] }) in
    hex16 (mix (mix_bytes fnv_offset64 bytes) idx)

abbrev pub drift_spec_edited : Text
drift_spec_edited = codes "drift-spec-edited"
