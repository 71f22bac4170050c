-- ===== src/Auth/Header.antt =====
-- The header that `Sign` writes is read back by `parseHeader`.
use cronix.Prelude.{
  ℕ, refl, [], ◌<◌, Bool, all, if◌then◌else◌, All, length, not, ◌≡◌, ltb, some, ◌*◌, true, ◌+◌, ◌∷◌,
  arith, ◌&&◌, ◌/◌, ◌==◌, ◌%◌, ◌++◌, none, ◌∙◌, ap, Option, List, subst,
}
use cronix.Auth.{
  finish_header, read_ts, hex_encode, hex_decode, hex_value, Segments, no_segments, read_segment,
  read_segments, parse_header, sig_version,
}
use cronix.Prelude.Text.{Text, to_lower, is_upper, is_digit, codes, split, equal, cut}
use cronix.Prelude.Text.Decimal.{
  decimal, decimal-digits, parse_int-decimal, parse_int, parse_int-lt,
}
use cronix.Prelude.Text.Split.{Without, cut-append, split-append, split-single}
use cronix.Prelude.Int.{pos, ℤ, negsuc}

abbrev pub IsByte : ℕ → Type 0
IsByte b = b < 256

hex_value-digit : (d : ℕ) → d < 16 → hex_value (if ltb d 10 then 48 + d else 87 + d) ≡ some d
unfolding hex_value
hex_value-digit d h = ground arith

-- The hexadecimal digits of a string of bytes are decoded to it.
pub hex_decode-encode : (bs : Text) → All IsByte bs → hex_decode (hex_encode bs) ≡ some bs
unfolding hex_decode hex_encode
hex_decode-encode [] h = refl
hex_decode-encode (b ∷ bs) h =
    ground (arith, hex_decode-encode bs h.1, hex_value-digit (b / 16), hex_value-digit (b % 16))

pub length-hex_encode : (bs : Text) → length (hex_encode bs) ≡ 2 * length bs
unfolding hex_encode
length-hex_encode [] = omega arith
length-hex_encode (b ∷ bs) = omega (arith, length-hex_encode bs)

-- Bytes of lower-case text: neither upper-case letters, nor a comma, nor an equals sign.
abbrev plain : ℕ → Bool
plain c = not (is_upper c) && not (c == b',') && not (c == b'=')

hex_encode-plain : (bs : Text) → All IsByte bs → all plain (hex_encode bs) ≡ true
unfolding hex_encode
hex_encode-plain [] h = refl
hex_encode-plain (b ∷ bs) h = ground (arith, hex_encode-plain bs h.1)

to_lower-plain : (t : Text) → all plain t ≡ true → to_lower t ≡ t
unfolding to_lower
to_lower-plain [] h = refl
to_lower-plain (c ∷ t) h = ground (arith, to_lower-plain t)

digits-plain : (t : Text) → all is_digit t ≡ true → all plain t ≡ true
digits-plain [] h = refl
digits-plain (c ∷ t) h = ground (arith, digits-plain t)

plain-Without_comma : (t : Text) → all plain t ≡ true → Without b',' t
plain-Without_comma [] h = refl
plain-Without_comma (c ∷ t) h = ground (arith, plain-Without_comma t)

-- The header of a timestamp and a signature, as `Sign` writes it.
abbrev pub header_of : ℕ → Text → Text
header_of n mac = codes "t=" ++ (decimal n ++ (b',' ∷ (sig_version ++ (b'=' ∷ hex_encode mac))))

split-header_of :
    (n : ℕ) (mac : Text)
    → All IsByte mac
    → split b',' (header_of n mac)
      ≡ (codes "t=" ++ decimal n) ∷ (sig_version ++ (b'=' ∷ hex_encode mac)) ∷ []
split-header_of n mac h =
    split-append b',' (codes "t=" ++ decimal n) (sig_version ++ (b'=' ∷ hex_encode mac))
      (plain-Without_comma (decimal n) (digits-plain (decimal n) (decimal-digits n)))
    ∙ ap (λ r. (codes "t=" ++ decimal n) ∷ r)
        (split-single b',' (sig_version ++ (b'=' ∷ hex_encode mac))
          (plain-Without_comma (hex_encode mac) (hex_encode-plain mac h)))

read_ts_segment :
    (n : ℕ)
    → n < 9223372036854775808
    → read_segment no_segments (codes "t") (decimal n)
      ≡ some (record { ts = some (pos n); sig_hex = none })
unfolding read_segment equal
read_ts_segment n h = rw (parse_int-decimal n h)

read_sig_segment :
    (seen : Segments) (mac : Text)
    → All IsByte mac
    → length mac ≡ 32
    → read_segment seen sig_version (hex_encode mac)
      ≡ some (record seen { sig_hex = some (hex_encode mac) })
unfolding read_segment equal
read_sig_segment seen mac h e =
    ground (arith, length-hex_encode mac, to_lower-plain (hex_encode mac) (hex_encode-plain mac h))

-- `parseHeader` returns the timestamp and the signature that were written, if the timestamp fits
-- and the signature has 32 bytes.
pub parse_header-header_of :
    (n : ℕ) (mac : Text)
    → n < 9223372036854775808
    → All IsByte mac
    → length mac ≡ 32
    → parse_header (header_of n mac) ≡ some (pos n, mac)
unfolding parse_header read_segments
parse_header-header_of n mac fits h e = rw (
  split-header_of n mac h,
  cut-append b'=' (codes "t") (decimal n) refl,
  read_ts_segment n fits,
  cut-append b'=' sig_version (hex_encode mac) refl,
  read_sig_segment _ mac h e,
  parse_header,
  read_segments,
  finish_header,
  hex_decode-encode mac h,
)

-- A timestamp that is read fits in 63 bits.
abbrev pub Fits : Option ℤ → Type 0
Fits none = Unit
Fits (some (pos n)) = n < 9223372036854775808
Fits (some (negsuc n)) = ⊥

read_ts-Fits : (t : Text) → Fits (read_ts (parse_int t))
unfolding read_ts
read_ts-Fits t = fits (parse_int t) refl
  where
    fits : (o : Option ℤ) → parse_int t ≡ o → Fits (read_ts o)
    fits none e = tt
    fits (some (pos n)) e = parse_int-lt t n e
    fits (some (negsuc n)) e = tt

read_segment-Fits :
    (seen seen' : Segments) (k v : Text)
    → Fits seen.ts
    → read_segment seen k v ≡ some seen'
    → Fits seen'.ts
unfolding read_segment
read_segment-Fits seen seen' k v h e = ground (arith, read_ts-Fits v)

read_segments-cons :
    (part : Text) (parts : List Text) (seen last : Segments)
    → read_segments seen (part ∷ parts) ≡ some last
    → (k : Text) × (v : Text) × (next : Segments) × (read_segment seen k v ≡ some next)
      × (read_segments next parts ≡ some last)
unfolding read_segments
read_segments-cons part parts seen last e = by_cut (cut b'=' part) refl
  where
    by_cut :
        (o : Option (Text × Text))
        → cut b'=' part ≡ o
        → (k : Text) × (v : Text) × (next : Segments) × (read_segment seen k v ≡ some next)
          × (read_segments next parts ≡ some last)
    by_cut none c = cc (rw (c, read_segments) at e)
    by_cut (some (k, v)) c = by_segment (read_segment seen k v) refl
      where
        by_segment :
            (o : Option Segments)
            → read_segment seen k v ≡ o
            → (k : Text) × (v : Text) × (next : Segments) × (read_segment seen k v ≡ some next)
              × (read_segments next parts ≡ some last)
        by_segment none r = cc (rw (c, r, read_segments) at e)
        by_segment (some next) r = (k, v, next, r, rw (c, r, read_segments) at e)

read_segments-Fits :
    (parts : List Text) (seen seen' : Segments)
    → Fits seen.ts
    → read_segments seen parts ≡ some seen'
    → Fits seen'.ts
unfolding read_segments
read_segments-Fits [] seen seen' h e = ground arith
read_segments-Fits (part ∷ parts) seen seen' h e =
    let (k, v, next, r, rest) = read_segments-cons part parts seen seen' e in
    read_segments-Fits parts next seen' (read_segment-Fits seen next k v h r) rest

finish_header-ts :
    (t : Option ℤ) (s : Option Text) (ts : ℤ) (sig : Text)
    → finish_header t s ≡ some (ts, sig)
    → t ≡ some ts
unfolding finish_header
finish_header-ts t s ts sig e = ground arith

-- What `parseHeader` returns is a non-negative timestamp of 63 bits.
pub parse_header-Fits :
    (header : Text) (ts : ℤ) (sig : Text) → parse_header header ≡ some (ts, sig) → Fits (some ts)
unfolding parse_header
parse_header-Fits [] ts sig e = empty_header e
  where
    empty_header : parse_header [] ≡ some (ts, sig) → Fits (some ts)
    empty_header q = cc
parse_header-Fits (c ∷ cs) ts sig e =
    by_segments (read_segments no_segments (split b',' (c ∷ cs))) refl
  where
    by_segments :
        (o : Option Segments) → read_segments no_segments (split b',' (c ∷ cs)) ≡ o → Fits (some ts)
    by_segments none r = cc (rw (r, parse_header) at e)
    by_segments (some seen) r =
        subst Fits (finish_header-ts seen.ts seen.sig_hex ts sig (rw (r, parse_header) at e))
          (read_segments-Fits _ no_segments seen tt r)
