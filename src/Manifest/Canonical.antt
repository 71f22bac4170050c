-- ===== src/Manifest/Canonical.antt =====
-- go/internal/manifest/manifest.go: `Canonicalize`, which is `json.Marshal` of a normalized
-- manifest. The object keys stand in the order of the struct tags, and strings are escaped as
-- encoding/json does for ASCII text, with HTML escaping on.
use cronix.Prelude.{ℕ, suc, ◌+◌, ◌/◌, ◌%◌, ◌||◌, List, [], ◌∷◌, ◌++◌, map, ltb, ◌==◌, if◌then◌else◌}
use cronix.Prelude.Int.{ℤ, pos, negsuc}
use cronix.Prelude.Text.{Text, codes, join}
use cronix.Prelude.Text.Decimal.{decimal}
use cronix.Manifest.{
  NormalizedRequest, NormalizedRetries, NormalizedPolicy, NormalizedAuth, NormalizedJob,
  NormalizedManifest,
}

-- One hexadecimal digit, in lower case.
abbrev pub hex_digit : ℕ → ℕ
hex_digit d = if ltb d 10 then 48 + d else 87 + d

unfoldable pub json_byte : ℕ → Text
json_byte c =
    if c == b'"' || c == b'\\'
    then b'\\' ∷ c ∷ []
    else if c == 8
    then codes "\\b"
    else if c == 12
    then codes "\\f"
    else if c == 10
    then codes "\\n"
    else if c == 13
    then codes "\\r"
    else if c == 9
    then codes "\\t"
    else if ltb c 32 || c == b'<' || c == b'>' || c == b'&'
    then codes "\\u00" ++ (hex_digit (c / 16) ∷ hex_digit (c % 16) ∷ [])
    else c ∷ []

unfoldable pub json_bytes : Text → Text
unfolding json_byte
json_bytes [] = []
json_bytes (c ∷ cs) = json_byte c ++ json_bytes cs

unfoldable pub json_string : Text → Text
unfolding json_bytes
json_string t = b'"' ∷ (json_bytes t ++ b'"' ∷ [])

unfoldable pub json_int : ℤ → Text
json_int (pos n) = decimal n
json_int (negsuc n) = b'-' ∷ decimal (suc n)

-- `[a,b]` and `{a,b}` of items that are serialized already
unfoldable pub json_array : List Text → Text
json_array items = b'[' ∷ (join (codes ",") items ++ b']' ∷ [])

unfoldable pub json_object : List Text → Text
json_object members = b'{' ∷ (join (codes ",") members ++ b'}' ∷ [])

unfoldable pub member : Text → Text → Text
unfolding json_string
member key value = json_string key ++ (b':' ∷ value)

unfoldable pub json_request : NormalizedRequest → Text
unfolding member json_string json_object
json_request r = json_object (
    member (codes "method") (json_string r.method)
    ∷ member (codes "url") (json_string r.url)
    ∷ member (codes "headers") (json_object (map (λ h. member h.0 (json_string h.1)) r.headers))
    ∷ member (codes "body") (json_string r.body)
    ∷ [])

unfoldable pub json_retries : NormalizedRetries → Text
unfolding member json_int json_object
json_retries r = json_object (
    member (codes "max_attempts") (json_int r.max_attempts)
    ∷ member (codes "min_seconds") (json_int r.min_seconds)
    ∷ member (codes "max_seconds") (json_int r.max_seconds)
    ∷ [])

unfoldable pub json_policy : NormalizedPolicy → Text
unfolding member json_string json_int json_object json_retries
json_policy p = json_object (
    member (codes "concurrency") (json_string p.concurrency)
    ∷ member (codes "concurrency_scope") (json_string p.concurrency_scope)
    ∷ member (codes "timeout_seconds") (json_int p.timeout_seconds)
    ∷ member (codes "retries") (json_retries p.retries)
    ∷ [])

unfoldable pub json_auth : NormalizedAuth → Text
unfolding member json_string json_array json_object
json_auth a =
    json_object (member (codes "secret_refs") (json_array (map json_string a.secret_refs)) ∷ [])

unfoldable pub json_job : NormalizedJob → Text
unfolding member json_string json_array json_object json_request json_policy json_auth
json_job j = json_object (
    member (codes "name") (json_string j.name)
    ∷ member (codes "schedules") (json_array (map json_string j.schedules))
    ∷ member (codes "timezone") (json_string j.timezone)
    ∷ member (codes "request") (json_request j.request)
    ∷ member (codes "policy") (json_policy j.policy)
    ∷ member (codes "auth") (json_auth j.auth)
    ∷ [])

unfoldable pub canonicalize : NormalizedManifest → Text
unfolding member json_string json_int json_array json_object json_job
canonicalize m = json_object (
    member (codes "version") (json_int m.version)
    ∷ member (codes "app") (json_string m.app)
    ∷ member (codes "jobs") (json_array (map json_job m.jobs))
    ∷ [])
