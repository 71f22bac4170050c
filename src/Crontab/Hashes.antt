-- ===== src/Crontab/Hashes.antt =====
-- A hash is 16 hexadecimal digits, as the ownership comment wants.
use cronix.Prelude.{[], ◌∷◌, ℕ, zero, suc, all, length, true, ◌≡◌, ◌+◌, arith, ◌/◌, ◌%◌, refl}
use cronix.Prelude.Text.{Text, codes}
use cronix.Manifest.Canonical.{canonicalize, hex_digit}
use cronix.Prelude.Int.{pos}
use cronix.Policy.{mix, mix_bytes, fnv_offset64, hex_onto, hex16, hash}
use cronix.Crontab.Owner.{is_hex, is_hash}
use cronix.Manifest.{NormalizedJob}

hex_onto-all : (n h : ℕ) (acc : Text) → all is_hex acc ≡ true → all is_hex (hex_onto n h acc) ≡ true
unfolding hex_onto
hex_onto-all zero h acc a = a
hex_onto-all (suc n) h acc a = hex_onto-all n (h / 16) _ (ground arith)

length-hex_onto : (n h : ℕ) (acc : Text) → length (hex_onto n h acc) ≡ n + length acc
unfolding hex_onto
length-hex_onto zero h acc = omega arith
length-hex_onto (suc n) h acc = omega (arith, length-hex_onto n (h / 16) (hex_digit (h % 16) ∷ acc))

-- The word that `Hash` prints.
abbrev word : NormalizedJob → ℕ → ℕ
word job i =
    mix
      (mix_bytes fnv_offset64
        (canonicalize (record { version = pos 1; app = codes "_hash_"; jobs = job ∷ [] })))
      i

pub hash-all : (job : NormalizedJob) (i : ℕ) → all is_hex (hash job i) ≡ true
unfolding hash hex16
hash-all job i = hex_onto-all 16 (word job i) [] refl

pub is_hash-hash : (job : NormalizedJob) (i : ℕ) → is_hash (hash job i) ≡ true
unfolding hash hex16
is_hash-hash job i =
    is_hash-length (hex_onto 16 (word job i) []) (length-hex_onto 16 (word job i) [])
  where
    is_hash-length : (t : Text) → length t ≡ 16 → is_hash t ≡ true
    is_hash-length t e = ground arith
