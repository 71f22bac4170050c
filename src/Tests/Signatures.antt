-- ===== src/Tests/Signatures.antt =====
-- A request that is signed and verified. The function in place of HMAC-SHA256 gives 32 bytes.
use cronix.Prelude.Text.Decimal.{parse_int, decimal}
use cronix.Prelude.{ℕ, refl, some, [], ◌∷◌, length, All, ◌≡◌, ◌≤◌, ◌+◌, inr, ◌<◌, arith, ◌≢◌}
use cronix.Prelude.Int.{pos, sub64}
use cronix.Prelude.Text.{Text, codes, split, cut, equal, to_lower}
use cronix.Auth.{
  SignOptions, VerifyOptions, sign, signed, verify, verified, parse_header, hex_encode, hex_decode,
  canonical_signed_payload, abs64,
}
use cronix.Auth.Header.{header_of}
use cronix.Auth.Sound.{Signs, check_of, verify_sound, verify-sign}

abbrev zeros : Text
zeros =
    0 ∷ 0 ∷ 0 ∷ 0 ∷ 0 ∷ 0 ∷ 0 ∷ 0 ∷ 0 ∷ 0 ∷ 0 ∷ 0 ∷ 0 ∷ 0 ∷ 0 ∷ 0 ∷ 0 ∷ 0 ∷ 0 ∷ 0 ∷ 0 ∷ 0 ∷ 0 ∷ 0
    ∷ 0 ∷ 0 ∷ 0 ∷ 0 ∷ 0 ∷ 0 ∷ 0 ∷ []

-- A secret of one byte gives other 32 bytes than the others.
abbrev keyed : Text → Text → Text
keyed (c ∷ []) payload = 1 ∷ zeros
keyed _ payload = 0 ∷ zeros

keyed-bytes :
    (secret payload : Text)
    → (length (keyed secret payload) ≡ 32) × All (λ b. b < 256) (keyed secret payload)
keyed-bytes [] payload = ground arith
keyed-bytes (c ∷ []) payload = ground arith
keyed-bytes (c ∷ d ∷ secret) payload = ground arith

abbrev request : SignOptions
request = record {
  secret = codes "s3";
  method = codes "post";
  path = codes "/jobs/report";
  body = codes "{}";
  timestamp = pos 1700000000;
}

abbrev header : Text
header = header_of 1700000000 (0 ∷ zeros)

abbrev check : VerifyOptions
check = check_of request header (codes "s" ∷ codes "s3" ∷ []) 1700000100 300

verify_sound_example :
    (n : ℕ) × (sig : Text) × (parse_header header ≡ some (pos n, sig))
    × (1700000100 ≤ n + 300)
    × (n ≤ 1700000100 + 300)
    × Signs keyed
        (canonical_signed_payload (pos n) (codes "post") (codes "/jobs/report") (codes "{}"))
        sig
        (codes "s" ∷ codes "s3" ∷ [])
        1
unfolding verify parse_header split cut equal parse_int decimal hex_encode hex_decode to_lower abs64
    sub64
verify_sound_example =
    verify_sound keyed (pos 0) check 1700000100 300 1 refl refl (omega arith, omega arith)
      (omega arith, omega arith) refl

different : 1 ∷ zeros ≢ 0 ∷ zeros
different e = cc

verify-sign_example :
    (h : Text) × (sign keyed (pos 0) request ≡ signed h (pos 1700000000))
    × (verify keyed (pos 0) (check_of request h (codes "s" ∷ codes "s3" ∷ []) 1700000100 300)
        ≡ verified 1)
verify-sign_example =
    verify-sign keyed (pos 0) (pos 0) request (codes "s" ∷ []) [] 1700000000 1700000100 300
      keyed-bytes refl (λ e. cc) (omega arith, omega arith) (omega arith, omega arith)
      (omega arith, omega arith) (omega arith) (omega arith) (inr different, tt)
