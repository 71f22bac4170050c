-- ===== src/Auth.antt =====
-- go/internal/auth/auth.go: signing and verification of requests. HMAC-SHA256, of the packages
-- crypto/hmac and crypto/sha256, and the clock are parameters.
pub mod Header
pub mod Sound
use cronix.Prelude.{
  ℕ, List, if◌then◌else◌, Option, none, ◌++◌, ltb, ◌∷◌, some, ◌+◌, ◌/◌, ◌-◌, ◌*◌, suc, ◌%◌, length,
  ◌==◌, [], zero,
}
use cronix.Prelude.Text.{Text, codes, within, equal, to_upper, cut, split, to_lower}
use cronix.Prelude.Int.{ℤ, pos, negsuc, ltℤ, neg64, sub64}
use cronix.Prelude.Text.Decimal.{decimal, parse_int}

abbrev pub sig_version : Text
sig_version = codes "v1"

abbrev pub replay_window_default_seconds : ℤ
replay_window_default_seconds = pos 300

abbrev pub expected_signature_hex_len : ℕ
expected_signature_hex_len = 64

-- The sentinel errors, and the error of `Sign`. The text that the wrapping adds is left out.
pub data AuthError : Type 0 where
  malformed_header stale_timestamp signature_mismatch empty_secret : AuthError

pub data Signed : Type 0 where
  signed : Text → ℤ → Signed
  sign_error : AuthError → Signed

pub data Verified : Type 0 where
  verified : ℕ → Verified
  rejected : AuthError → Verified

pub record SignOptions : Type 0 where
  pub secret : Text
  pub method : Text
  pub path : Text
  pub body : Text
  pub timestamp : ℤ

pub record VerifyOptions : Type 0 where
  pub secrets : List Text
  pub method : Text
  pub path : Text
  pub body : Text
  pub header : Text
  pub now : ℤ
  pub max_skew_seconds : ℤ

-- `%d` of an `int64`
unfoldable pub show_int : ℤ → Text
show_int (pos n) = decimal n
show_int (negsuc n) = b'-' ∷ decimal (suc n)

-- `<unix>.<METHOD>.<path>.<body>`
unfoldable pub canonical_signed_payload : ℤ → Text → Text → Text → Text
unfolding show_int
canonical_signed_payload ts method path body =
    show_int ts ++ (b'.' ∷ (to_upper method ++ (b'.' ∷ (path ++ (b'.' ∷ body)))))

abbrev hex_digit : ℕ → ℕ
hex_digit d = if ltb d 10 then 48 + d else 87 + d

-- `hex.EncodeToString`
unfoldable pub hex_encode : Text → Text
hex_encode [] = []
hex_encode (b ∷ bs) = hex_digit (b / 16) ∷ hex_digit (b % 16) ∷ hex_encode bs

unfoldable pub hex_value : ℕ → Option ℕ
hex_value c =
    if within b'0' b'9' c
    then some (c - 48)
    else if within b'a' b'f' c
    then some (c - 87)
    else if within b'A' b'F' c
    then some (c - 55)
    else none

-- The byte of two digits before the rest.
join_byte : Option ℕ → Option ℕ → Option Text → Option Text
join_byte (some h) (some l) (some bs) = some ((h * 16 + l) ∷ bs)
join_byte _ _ _ = none

-- `hex.DecodeString`; `none` is an error
unfoldable pub hex_decode : Text → Option Text
unfolding hex_value join_byte
hex_decode [] = some []
hex_decode (h ∷ []) = none
hex_decode (h ∷ l ∷ cs) = join_byte (hex_value h) (hex_value l) (hex_decode cs)

-- What the loop of `parseHeader` has read: the timestamp and the signature in lower case.
pub record Segments : Type 0 where
  pub ts : Option ℤ
  pub sig_hex : Option Text

abbrev pub no_segments : Segments
no_segments = record { ts = none; sig_hex = none }

-- `n, err := strconv.ParseInt(v, 10, 64)`, which must be a non-negative number
read_ts : Option ℤ → Option ℤ
read_ts (some (pos n)) = some (pos n)
read_ts _ = none

set_ts : Segments → Option ℤ → Option Segments
set_ts seen none = none
set_ts seen (some n) = some (record seen { ts = some n })

-- The `switch` on the key of a segment; `none` is the return of `ErrMalformedHeader`.
unfoldable pub read_segment : Segments → Text → Text → Option Segments
unfolding read_ts set_ts
read_segment seen k v =
    if equal k (codes "t")
    then set_ts seen (read_ts (parse_int v))
    else if equal k sig_version
    then (if length v == expected_signature_hex_len
        then some (record seen { sig_hex = some (to_lower v) })
        else none)
    else some seen

unfoldable pub read_segments : Segments → List Text → Option Segments
unfolding read_segment
read_segments seen [] = some seen
read_segments seen (part ∷ parts) = elim (cut b'=' part) [
  | none ↦ none
  | some (k, v) ↦ elim (read_segment seen k v) [
    | none ↦ none
    | some seen' ↦ read_segments seen' parts
  ]
]

-- The checks behind the loop.
finish_header : Option ℤ → Option Text → Option (ℤ × Text)
finish_header (some ts) (some sig_hex) = elim (hex_decode sig_hex) [
  | none ↦ none
  | some sig ↦ some (ts, sig)
]
finish_header _ _ = none

-- `parseHeader`: the timestamp and the bytes of the signature, or `ErrMalformedHeader`
unfoldable pub parse_header : Text → Option (ℤ × Text)
unfolding read_segments finish_header
parse_header [] = none
parse_header (c ∷ cs) = elim (read_segments no_segments (split b',' (c ∷ cs))) [
  | none ↦ none
  | some seen ↦ finish_header seen.ts seen.sig_hex
]

abbrev pub or_default : ℤ → ℤ → ℤ
or_default (pos zero) d = d
or_default x d = x

-- `if delta < 0 { delta = -delta }`
unfoldable pub abs64 : ℤ → ℤ
abs64 (pos n) = pos n
abs64 (negsuc n) = neg64 (negsuc n)

-- `hmac secret payload` is `hmacBytes`; `clock` is the package-level clock in Unix seconds, read
-- where the options give no time.
unfoldable pub sign : (Text → Text → Text) → ℤ → SignOptions → Signed
sign hmac clock o =
    let ts = or_default o.timestamp clock in
    let mac = hex_encode (hmac o.secret (canonical_signed_payload ts o.method o.path o.body)) in
    elim o.secret [
      | [] ↦ sign_error empty_secret
      | c ∷ cs ↦ signed (codes "t=" ++ (show_int ts ++ (b',' ∷ (sig_version ++ (b'=' ∷ mac))))) ts
    ]

-- The loop over the secrets, from index `i`; the empty ones are passed over.
-- `ConstantTimeCompare` gives 1 exactly for equal slices.
unfoldable pub try_secrets : (Text → Text → Text) → Text → Text → ℕ → List Text → Verified
try_secrets hmac payload sig i [] = rejected signature_mismatch
try_secrets hmac payload sig i ([] ∷ secrets) = try_secrets hmac payload sig (suc i) secrets
try_secrets hmac payload sig i ((c ∷ cs) ∷ secrets) =
    let rest = try_secrets hmac payload sig (suc i) secrets in
    if equal (hmac (c ∷ cs) payload) sig then verified i else rest

unfoldable pub verify_parsed :
    (Text → Text → Text) → ℤ → VerifyOptions → Option (ℤ × Text) → Verified
unfolding try_secrets
verify_parsed hmac clock o none = rejected malformed_header
verify_parsed hmac clock o (some (ts, sig)) =
    let now = or_default o.now clock in
    let skew = or_default o.max_skew_seconds replay_window_default_seconds in
    if ltℤ skew (abs64 (sub64 now ts))
    then rejected stale_timestamp
    else try_secrets hmac (canonical_signed_payload ts o.method o.path o.body) sig 0 o.secrets

unfoldable pub verify : (Text → Text → Text) → ℤ → VerifyOptions → Verified
unfolding verify_parsed
verify hmac clock o = elim o.secrets [
  | [] ↦ rejected malformed_header
  | _ ∷ _ ↦ verify_parsed hmac clock o (parse_header o.header)
]
