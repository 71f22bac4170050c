-- ===== src/Auth/Sound.antt =====
-- When `Verify` accepts: soundness, and the acceptance of what `Sign` signs.
use cronix.Prelude.{
  ℕ, refl, [], ◌≡◌, List, ◌⊎◌, All, ◌≢◌, ◌++◌, ◌∷◌, ◌+◌, length, arith, get_elem?, ◌≤◌, ◌-◌, suc,
  some, Bool-cases, ◌<◌, inl, inr, false, ◌↔◌, leb, Option, zero, none, if◌then◌else◌, Bool, subst,
  sym, true, ◌∙◌, ap,
}
use cronix.Auth.{
  stale_timestamp, verified, rejected, signed, VerifyOptions, SignOptions, sign, verify,
  verify_parsed, try_secrets, canonical_signed_payload, parse_header, abs64, show_int, or_default,
}
use cronix.Auth.Header.{IsByte, header_of, parse_header-header_of, parse_header-Fits}
use cronix.Prelude.Text.{Text, equal_iff, equal}
use cronix.Prelude.Int.{ltℤ, pos, sub64, ℤ, sub64_exact, neg64_exact, negsuc}

module _ (hmac : Text → Text → Text) where
  -- A secret that the loop passes over: it is empty or gives another signature.
  abbrev pub Passed : Text → Text → Text → Type 0
  Passed payload sig secret = (secret ≡ []) ⊎ (hmac secret payload ≢ sig)

  try_secrets-at :
      (payload sig : Text) (i : ℕ) (before : List Text) (secret : Text) (after : List Text)
      → All (Passed payload sig) before
      → secret ≢ []
      → hmac secret payload ≡ sig
      → try_secrets hmac payload sig i (before ++ secret ∷ after) ≡ verified (i + length before)
  unfolding try_secrets
  try_secrets-at payload sig i [] [] after h ne e = absurd (ne refl)
  try_secrets-at payload sig i [] (c ∷ cs) after h ne e =
      ground (arith, equal_iff (hmac (c ∷ cs) payload) sig)
  try_secrets-at payload sig i ([] ∷ before) secret after h ne e =
      ground (arith, try_secrets-at payload sig (suc i) before secret after h.1 ne e)
  try_secrets-at payload sig i ((c ∷ cs) ∷ before) secret after h ne e = ground (
    arith,
    try_secrets-at payload sig (suc i) before secret after h.1 ne e,
    equal_iff (hmac (c ∷ cs) payload) sig,
  )

  -- The secret at an index is not empty and signs the payload.
  abbrev pub Signs : Text → Text → List Text → ℕ → Type 0
  Signs payload sig secrets k =
      (secret : Text) × (get_elem? secrets k ≡ some secret)
      × (secret ≢ [])
      × (hmac secret payload ≡ sig)

  Signs-later :
      (payload sig s : Text) (i n : ℕ) (secrets : List Text)
      → (k : ℕ) × (n ≡ suc i + k) × Signs payload sig secrets k
      → (k : ℕ) × (n ≡ i + k) × Signs payload sig (s ∷ secrets) k
  Signs-later payload sig s i n secrets (k, e, h) = (suc k, omega arith, h)

  try_secrets_sound :
      (payload sig : Text) (i : ℕ) (secrets : List Text) (n : ℕ)
      → try_secrets hmac payload sig i secrets ≡ verified n
      → (k : ℕ) × (n ≡ i + k) × Signs payload sig secrets k
  unfolding try_secrets
  try_secrets_sound payload sig i [] n e = cc
  try_secrets_sound payload sig i ([] ∷ secrets) n e =
      Signs-later payload sig [] i n secrets (try_secrets_sound payload sig (suc i) secrets n e)
  try_secrets_sound payload sig i ((c ∷ cs) ∷ secrets) n e =
      elim (Bool-cases (equal (hmac (c ∷ cs) payload) sig)) [
        | inl same ↦ (
          0,
          (ground arith),
          (c ∷ cs, refl, (λ q. cc), (equal_iff (hmac (c ∷ cs) payload) sig).0 same),
        )
        | inr other ↦
            Signs-later payload sig (c ∷ cs) i n secrets
              (try_secrets_sound payload sig (suc i) secrets n (rw other at e))
      ]

-- The distance of two instants, with no wrap-around between non-negative ones.
abs64-sub64 :
    (now n : ℕ)
    → now < 9223372036854775808
    → n < 9223372036854775808
    → abs64 (sub64 (pos now) (pos n)) ≡ pos ((now - n) + (n - now))
unfolding abs64
abs64-sub64 now n h k = elim (Bool-cases (leb n now)) [
  | inl later ↦ rw (sub64_exact now n h k, later) (ground arith)
  | inr sooner ↦
      rw (sub64_exact now n h k, sooner, neg64_exact (n - now - 1) (ground arith)) (ground arith)
]

pub fresh_iff :
    (now n skew : ℕ)
    → now < 9223372036854775808
    → n < 9223372036854775808
    → (ltℤ (pos skew) (abs64 (sub64 (pos now) (pos n))) ≡ false)
      ↔ ((now ≤ n + skew) × (n ≤ now + skew))
fresh_iff now n skew h k = rw (abs64-sub64 now n h k) (ground arith)

-- A request at a positive time `now` with a skew of its own, as `Verify` reads it.
abbrev pub Positive : ℕ → Type 0
Positive n = (0 < n) × (n < 9223372036854775808)

or_default-pos : (n : ℕ) (d : ℤ) → 0 < n → or_default (pos n) d ≡ pos n
or_default-pos zero d h = elim h [ ]
or_default-pos (suc n) d h = refl

module _ (hmac : Text → Text → Text) (clock : ℤ) (o : VerifyOptions) where
  verify-eq-verified :
      (i : ℕ)
      → verify hmac clock o ≡ verified i
      → verify_parsed hmac clock o (parse_header o.header) ≡ verified i
  unfolding verify
  verify-eq-verified i e = by_secrets o.secrets refl
    where
      by_secrets :
          (ss : List Text)
          → o.secrets ≡ ss
          → verify_parsed hmac clock o (parse_header o.header) ≡ verified i
      by_secrets [] q = cc (rw (q, verify) at e)
      by_secrets (s ∷ ss) q = rw (q, verify) at e

  module _ (now skew : ℕ) (en : o.now ≡ pos now) (es : o.max_skew_seconds ≡ pos skew)
      (pn : Positive now) (ps : Positive skew) where
    verify_parsed-some :
        (n : ℕ) (sig : Text)
        → verify_parsed hmac clock o (some (pos n, sig)) ≡ (
            if ltℤ (pos skew) (abs64 (sub64 (pos now) (pos n)))
            then rejected stale_timestamp
            else try_secrets hmac
                (canonical_signed_payload (pos n) o.method o.path o.body)
                sig
                0
                o.secrets)
    unfolding verify_parsed
    verify_parsed-some n sig =
        rw (en, es, or_default-pos now clock pn.0, or_default-pos skew (pos 300) ps.0)

-- `Verify` accepts only a header that parses to a timestamp within the skew of now, and reports the
-- index of a non-empty secret whose HMAC of the canonical payload is the signature. The time and
-- the skew are those of the options, positive and below 2^63.
pub verify_sound :
    (hmac : Text → Text → Text) (clock : ℤ) (o : VerifyOptions) (now skew i : ℕ)
    → o.now ≡ pos now
    → o.max_skew_seconds ≡ pos skew
    → Positive now
    → Positive skew
    → verify hmac clock o ≡ verified i
    → (n : ℕ) × (sig : Text) × (parse_header o.header ≡ some (pos n, sig))
      × (now ≤ n + skew)
      × (n ≤ now + skew)
      × Signs hmac (canonical_signed_payload (pos n) o.method o.path o.body) sig o.secrets i
unfolding verify_parsed
verify_sound hmac clock o now skew i en es pn ps e = by_header (parse_header o.header) refl
  where
    accepted : verify_parsed hmac clock o (parse_header o.header) ≡ verified i
    accepted = verify-eq-verified hmac clock o i e

    Accepts : Type 0
    Accepts =
        (n : ℕ) × (sig : Text) × (parse_header o.header ≡ some (pos n, sig))
        × (now ≤ n + skew)
        × (n ≤ now + skew)
        × Signs hmac (canonical_signed_payload (pos n) o.method o.path o.body) sig o.secrets i

    by_time :
        (n : ℕ) (sig : Text)
        → parse_header o.header ≡ some (pos n, sig)
        → (b : Bool) → ltℤ (pos skew) (abs64 (sub64 (pos now) (pos n))) ≡ b
        → Accepts
    by_time n sig r true t =
        cc (rw (r, verify_parsed-some hmac clock o now skew en es pn ps n sig, t) at accepted)
    by_time n sig r false t =
        let (k, ik, signs) =
          try_secrets_sound hmac _ sig 0 o.secrets i
            (rw (r, verify_parsed-some hmac clock o now skew en es pn ps n sig, t) at accepted) in
        let near = (fresh_iff now n skew pn.1 (parse_header-Fits o.header (pos n) sig r)).0 t in
        let same : i ≡ k = omega arith in
        (
          n,
          sig,
          r,
          near.0,
          near.1,
          subst (Signs hmac (canonical_signed_payload (pos n) o.method o.path o.body) sig o.secrets)
              (sym same) signs,
        )

    by_header : (r : Option (ℤ × Text)) → parse_header o.header ≡ r → Accepts
    by_header none r = cc (rw (r, verify_parsed) at accepted)
    by_header (some (pos n, sig)) r =
        by_time n sig r (ltℤ (pos skew) (abs64 (sub64 (pos now) (pos n)))) refl
    by_header (some (negsuc n, sig)) r = absurd (parse_header-Fits o.header (negsuc n) sig r)

-- HMAC-SHA256 gives 32 bytes.
abbrev pub IsHmac : (Text → Text → Text) → Type 0
IsHmac hmac =
    (secret payload : Text) → (length (hmac secret payload) ≡ 32) × All IsByte (hmac secret payload)

-- The options by which a signed request is checked.
abbrev pub check_of : SignOptions → Text → List Text → ℕ → ℕ → VerifyOptions
check_of so header secrets now skew = record {
  secrets = secrets;
  method = so.method;
  path = so.path;
  body = so.body;
  header = header;
  now = pos now;
  max_skew_seconds = pos skew;
}

verify-cons :
    (hmac : Text → Text → Text) (clock : ℤ) (o : VerifyOptions) (before : List Text) (s : Text)
    (after : List Text)
    → o.secrets ≡ before ++ s ∷ after
    → verify hmac clock o ≡ verify_parsed hmac clock o (parse_header o.header)
unfolding verify
verify-cons hmac clock o [] s after e = rw e
verify-cons hmac clock o (b ∷ before) s after e = rw e

-- `Sign` with a non-empty secret at a positive time gives a header that `Verify` accepts for the
-- same method, path and body, at any time within the skew. The index is that of the secret, if the
-- secrets before it are empty or give another signature; this is how rotated secrets are listed.
pub verify-sign :
    (hmac : Text → Text → Text) (clock clock' : ℤ) (so : SignOptions) (before after : List Text)
    (n now skew : ℕ)
    → IsHmac hmac
    → so.timestamp ≡ pos n
    → so.secret ≢ []
    → Positive n
    → Positive now
    → Positive skew
    → now ≤ n + skew
    → n ≤ now + skew
    → All
        (λ s.
          Passed hmac
            (canonical_signed_payload (pos n) so.method so.path so.body)
            (hmac so.secret (canonical_signed_payload (pos n) so.method so.path so.body))
            s)
        before
    → (header : Text) × (sign hmac clock so ≡ signed header (pos n))
      × (verify hmac clock' (check_of so header (before ++ so.secret ∷ after) now skew)
          ≡ verified (length before))
unfolding sign show_int
verify-sign hmac clock clock' so before after n now skew good et ne pn pnow ps near near' passed = (
  header_of n mac,
  signs so.secret refl,
  verify-cons hmac clock' o before so.secret after refl
      ∙ (ap (verify_parsed hmac clock' o) (
            parse_header-header_of n mac pn.1 (good so.secret payload).1 (good so.secret payload).0)
          ∙ (verify_parsed-some hmac clock' o now skew refl refl pnow ps n mac
              ∙ rw ((fresh_iff now n skew pnow.1 pn.1).1 (near, near')) (
                  try_secrets-at hmac payload mac 0 before so.secret after passed ne refl
                  ∙ ap verified (omega arith)))),
)
  where
    payload : Text
    payload = canonical_signed_payload (pos n) so.method so.path so.body

    mac : Text
    mac = hmac so.secret payload

    o : VerifyOptions
    o = check_of so (header_of n mac) (before ++ so.secret ∷ after) now skew

    signs : (s : Text) → so.secret ≡ s → sign hmac clock so ≡ signed (header_of n mac) (pos n)
    signs [] e = absurd (ne e)
    signs (c ∷ cs) e = rw (e, et, or_default-pos n clock pn.0, sign) (rw e)
