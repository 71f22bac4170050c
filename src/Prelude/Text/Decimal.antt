-- ===== src/Prelude/Text/Decimal.antt =====
-- Numbers as text: `%d`, and `strconv.Atoi`, which `ParseInt(s, 10, 64)` agrees with.
use Prim.Native.Nat.{ℕ, zero, suc, ◌+◌, ◌-◌, ◌*◌, ◌/◌, ◌%◌, ◌<◌}
use mathlib.Core.Bool.{Bool, true, ◌&&◌}
use mathlib.Core.List.{List, [], ◌∷◌}
use mathlib.Core.Logic.{◌≢◌, ◌⊎◌, inl, inr}
use mathlib.Core.Option.{Option, none, some}
use mathlib.Core.Path.{◌≡◌, refl, ◌∙◌, sym, ap}
use native.Mathlib.Omega.{arith}
use cronix.Prelude.Int.{ℤ, pos, negsuc}
use cronix.Prelude.Lists.{all}
use cronix.Prelude.Tests.{ltb, leb, ◌==◌, if◌then◌else◌, Bool-cases}

-- The digits of `n` before `acc`. The fuel `n + 1` is enough, since `n / 10 < n`.
decimal_onto : ℕ → ℕ → List ℕ → List ℕ
decimal_onto zero n acc = acc
decimal_onto (suc f) n acc =
    let more = decimal_onto f (n / 10) ((48 + n % 10) ∷ acc) in
    if ltb n 10 then (48 + n) ∷ acc else more

unfoldable pub decimal : ℕ → List ℕ
unfolding decimal_onto
decimal n = decimal_onto (suc n) n []

abbrev digit : ℕ → Bool
digit c = leb 48 c && leb c 57

-- The value of a run of digits behind the value read so far.
unfoldable pub digits_value : ℕ → List ℕ → Option ℕ
digits_value v [] = some v
digits_value v (c ∷ cs) =
    let rest = digits_value (v * 10 + (c - 48)) cs in if digit c then rest else none

-- An empty run of digits is an error.
unfoldable pub parse_digits : List ℕ → Option ℕ
unfolding digits_value
parse_digits [] = none
parse_digits (c ∷ cs) = digits_value 0 (c ∷ cs)

abbrev in_range : (ℕ → ℤ) → ℕ → Option ℕ → Option ℤ
in_range sign limit none = none
in_range sign limit (some n) = if leb n limit then some (sign n) else none

-- `-n`
abbrev pub negate : ℕ → ℤ
negate zero = pos 0
negate (suc n) = negsuc n

-- An optional sign, digits, and a value that fits in 64 bits.
unfoldable pub parse_int : List ℕ → Option ℤ
unfolding parse_digits
parse_int [] = none
parse_int (c ∷ cs) =
    if c == b'-'
    then in_range negate 9223372036854775808 (parse_digits cs)
    else if c == b'+'
    then in_range pos 9223372036854775807 (parse_digits cs)
    else in_range pos 9223372036854775807 (parse_digits (c ∷ cs))

digits_value-decimal_onto :
    (f n : ℕ) (acc : List ℕ) → n < f → digits_value 0 (decimal_onto f n acc) ≡ digits_value n acc
unfolding decimal_onto digits_value
digits_value-decimal_onto zero n acc h = elim h [ ]
digits_value-decimal_onto (suc f) n acc h = elim (Bool-cases (ltb n 10)) [
  | inl small ↦ rw small (ground arith)
  | inr large ↦
      rw large
        (digits_value-decimal_onto f (n / 10) ((48 + n % 10) ∷ acc) (ground arith) ∙ ground arith)
]

decimal_onto-digits :
    (f n : ℕ) (acc : List ℕ)
    → n < f
    → all digit acc ≡ true
    → all digit (decimal_onto f n acc) ≡ true
unfolding decimal_onto
decimal_onto-digits zero n acc h k = elim h [ ]
decimal_onto-digits (suc f) n acc h k =
    ground (arith, decimal_onto-digits f (n / 10) ((48 + n % 10) ∷ acc))

-- A printed number consists of digits.
pub decimal-digits : (n : ℕ) → all digit (decimal n) ≡ true
unfolding decimal
decimal-digits n = decimal_onto-digits (suc n) n [] (omega arith) refl

digits_value-decimal : (n : ℕ) → digits_value 0 (decimal n) ≡ some n
unfolding decimal digits_value
digits_value-decimal n = digits_value-decimal_onto (suc n) n [] (omega arith)

-- Two numbers have the same digits only if they are equal.
pub decimal-injective : (m n : ℕ) → decimal m ≡ decimal n → m ≡ n
decimal-injective m n e =
    some_injective (sym (digits_value-decimal m) ∙ ap (digits_value 0) e ∙ digits_value-decimal n)
  where
    some_injective : some m ≡ some n → m ≡ n
    some_injective p = cc p

decimal_onto-ne-nil : (f n : ℕ) (acc : List ℕ) → n < f ⊎ (acc ≢ []) → decimal_onto f n acc ≢ []
unfolding decimal_onto
decimal_onto-ne-nil zero n acc (inl h) = elim h [ ]
decimal_onto-ne-nil zero n acc (inr h) = h
decimal_onto-ne-nil (suc f) n acc h =
    ground (arith, decimal_onto-ne-nil f (n / 10) ((48 + n % 10) ∷ acc) (inr (λ e. cc)))

pub decimal-ne-nil : (n : ℕ) → decimal n ≢ []
unfolding decimal
decimal-ne-nil n = decimal_onto-ne-nil (suc n) n [] (inl (omega arith))

parse_int-digits :
    (t : List ℕ) (n : ℕ)
    → all digit t ≡ true
    → digits_value 0 t ≡ some n
    → t ≢ []
    → n < 9223372036854775808
    → parse_int t ≡ some (pos n)
unfolding parse_int digits_value
parse_int-digits [] n d v e h = absurd (e refl)
parse_int-digits (c ∷ cs) n d v e h = ground arith

-- A number below 2^63 is read back from its digits.
pub parse_int-decimal : (n : ℕ) → n < 9223372036854775808 → parse_int (decimal n) ≡ some (pos n)
parse_int-decimal n h =
    parse_int-digits (decimal n) n (decimal-digits n) (digits_value-decimal n) (decimal-ne-nil n) h

in_range-pos :
    (o : Option ℕ) (n : ℕ)
    → in_range pos 9223372036854775807 o ≡ some (pos n)
    → n < 9223372036854775808
in_range-pos none n h = cc
in_range-pos (some m) n h = ground arith

in_range-negate :
    (o : Option ℕ) (n : ℕ)
    → in_range negate 9223372036854775808 o ≡ some (pos n)
    → n < 9223372036854775808
in_range-negate none n h = cc
in_range-negate (some zero) n h = ground arith
in_range-negate (some (suc m)) n h = elim (Bool-cases (leb (suc m) 9223372036854775808)) [
  | inl e ↦ cc (rw e at h)
  | inr e ↦ cc (rw e at h)
]

-- What is read fits in 63 bits and a sign.
pub parse_int-lt : (t : List ℕ) (n : ℕ) → parse_int t ≡ some (pos n) → n < 9223372036854775808
unfolding parse_int
parse_int-lt [] n h = cc
parse_int-lt (c ∷ cs) n h = elim (Bool-cases (c == b'-')) [
  | inl minus ↦ in_range-negate (parse_digits cs) n (rw minus at h)
  | inr other ↦ elim (Bool-cases (c == b'+')) [
    | inl plus ↦ in_range-pos (parse_digits cs) n (rw (other, plus) at h)
    | inr digits ↦ in_range-pos (parse_digits (c ∷ cs)) n (rw (other, digits) at h)
  ]
]
