-- ===== src/Prelude/Text.antt =====
-- Go strings as lists of bytes, with what the program uses of the packages `strings` and
-- `strconv`. White space and letter case are those of ASCII.
pub mod Decimal
pub mod Split
pub mod Space
use Prim.Native.Char.{code}
use Prim.Native.Nat.{ℕ, zero, suc, ◌+◌, ◌-◌, ◌*◌, ◌≤◌, ◌<◌}
use Prim.Native.String.{String}
use mathlib.Core.Bool.{Bool, true, false, not, ◌&&◌, ◌||◌}
use mathlib.Core.List.{List, [], ◌∷◌, ◌++◌, map, reverse}
use mathlib.Core.Logic.{◌↔◌}
use mathlib.Core.Option.{Option, none, some}
use mathlib.Core.Path.{◌≡◌, refl, ap}
use native.Mathlib.Omega.{arith}
use cronix.Prelude.Lists.{length, all}
use cronix.Prelude.Tests.{ltb, leb, ◌==◌, if◌then◌else◌}

abbrev pub Text : Type 0
Text = List ℕ

-- The bytes of an ASCII literal.
abbrev pub codes : String → Text
codes String.[] = []
codes (String.◌∷◌ c s) = code c ∷ codes s

-- `a == b`
unfoldable pub equal : Text → Text → Bool
equal [] [] = true
equal (x ∷ xs) (y ∷ ys) = x == y && equal xs ys
equal _ _ = false

pub equal_iff : (a b : Text) → (equal a b ≡ true) ↔ (a ≡ b)
unfolding equal
equal_iff (x ∷ a) (y ∷ b) = ground (arith, equal_iff a b)
equal_iff _ _ = ground arith

pub equal_refl : (a : Text) → equal a a ≡ true
equal_refl a = (equal_iff a a).1 refl

-- `a < b`, byte by byte
unfoldable pub less : Text → Text → Bool
less [] [] = false
less [] (y ∷ ys) = true
less (x ∷ xs) [] = false
less (x ∷ xs) (y ∷ ys) = ltb x y || x == y && less xs ys

-- Membership in a set of strings.
unfoldable pub contains : List Text → Text → Bool
contains [] t = false
contains (x ∷ xs) t = equal x t || contains xs t

abbrev pub within : ℕ → ℕ → ℕ → Bool
within lo hi c = leb lo c && leb c hi

abbrev pub is_digit : ℕ → Bool
is_digit c = within b'0' b'9' c

abbrev pub is_lower : ℕ → Bool
is_lower c = within b'a' b'z' c

abbrev pub is_upper : ℕ → Bool
is_upper c = within b'A' b'Z' c

-- tab, newline, vertical tab, form feed, carriage return, space
abbrev pub is_space : ℕ → Bool
is_space c = within 9 13 c || c == 32

-- `strings.ToUpper`, `strings.ToLower`
unfoldable pub to_upper : Text → Text
to_upper = map (λ c. if is_lower c then c - 32 else c)

unfoldable pub to_lower : Text → Text
to_lower = map (λ c. if is_upper c then c + 32 else c)

unfoldable pub trim_left : Text → Text
trim_left [] = []
trim_left (c ∷ cs) = let rest = trim_left cs in if is_space c then rest else c ∷ cs

-- `strings.TrimSpace`
unfoldable pub trim_space : Text → Text
unfolding trim_left
trim_space t = reverse (trim_left (reverse (trim_left t)))

-- `strings.CutPrefix(t, p)`: what follows the prefix
unfoldable pub cut_prefix : Text → Text → Option Text
cut_prefix t [] = some t
cut_prefix [] (y ∷ ys) = none
cut_prefix (x ∷ xs) (y ∷ ys) = let rest = cut_prefix xs ys in if x == y then rest else none

pub cut_prefix-append : (p t : Text) → cut_prefix (p ++ t) p ≡ some t
unfolding cut_prefix
cut_prefix-append [] t = refl
cut_prefix-append (x ∷ p) t = ground (arith, cut_prefix-append p t)

-- `strings.Cut` at one byte: what stands before the first one, and what follows it
unfoldable pub cut : ℕ → Text → Option (Text × Text)
cut sep [] = none
cut sep (c ∷ cs) =
    let rest = cut sep cs in
    if c == sep then some ([], cs) else elim rest [ none ↦ none | some (a, b) ↦ some (c ∷ a, b) ]

-- The pieces between separators: the first piece and the others.
split_onto : ℕ → Text → Text × List Text
split_onto sep [] = ([], [])
split_onto sep (c ∷ cs) =
    let (first, others) = split_onto sep cs in
    if c == sep then ([], first ∷ others) else (c ∷ first, others)

-- `strings.Split` at one byte
unfoldable pub split : ℕ → Text → List Text
unfolding split_onto
split sep t = let (first, others) = split_onto sep t in first ∷ others

-- A run joins the others unless it is empty.
unfoldable add_run : Text → List Text → List Text
add_run [] others = others
add_run (c ∷ cs) others = (c ∷ cs) ∷ others

-- The run that the text begins with, and the runs behind it.
unfoldable fields_onto : Text → Text × List Text
fields_onto [] = ([], [])
fields_onto (c ∷ cs) =
    let (run, others) = fields_onto cs in
    if is_space c then ([], add_run run others) else (c ∷ run, others)

-- `strings.Fields`: the maximal runs of bytes that are not white space
unfoldable pub fields : Text → List Text
unfolding fields_onto add_run
fields t = let (run, others) = fields_onto t in add_run run others

-- `strings.Join`
unfoldable pub join : Text → List Text → Text
join sep [] = []
join sep (x ∷ []) = x
join sep (x ∷ y ∷ ys) = x ++ (sep ++ join sep (y ∷ ys))

-- The longest prefix whose bytes satisfy the test, and what follows it.
unfoldable pub span : (ℕ → Bool) → Text → Text × Text
span p [] = ([], [])
span p (c ∷ cs) = let (a, b) = span p cs in if p c then (c ∷ a, b) else ([], c ∷ cs)

-- A run of such bytes that ends at one which fails the test is found whole.
pub span-append :
    (p : ℕ → Bool) (a : Text) (c : ℕ) (b : Text)
    → all p a ≡ true
    → p c ≡ false
    → span p (a ++ (c ∷ b)) ≡ (a, c ∷ b)
unfolding span
span-append p [] c b h e = ground arith
span-append p (x ∷ a) c b h e = ground (arith, span-append p a c b)

pub span-all : (p : ℕ → Bool) (a : Text) → all p a ≡ true → span p a ≡ (a, [])
unfolding span
span-all p [] h = refl
span-all p (x ∷ a) h = ground (arith, span-all p a)
