-- ===== src/Prelude/Text/Split.antt =====
-- Laws of `strings.Split` and `strings.Cut` at one byte.
use Prim.Native.Nat.{ℕ}
use mathlib.Core.Bool.{true, not}
use mathlib.Core.List.{[], ◌∷◌, ◌++◌}
use mathlib.Core.Option.{some}
use mathlib.Core.Path.{◌≡◌, refl}
use native.Mathlib.Omega.{arith}
use cronix.Prelude.Lists.{all}
use cronix.Prelude.Tests.{◌==◌}
use cronix.Prelude.Text.{Text, split, split_onto, cut}

abbrev pub Without : ℕ → Text → Type 0
Without sep a = all (λ c. not (c == sep)) a ≡ true

split_onto-append :
    (sep : ℕ) (a b : Text) → Without sep a → split_onto sep (a ++ (sep ∷ b)) ≡ (a, split sep b)
unfolding split_onto split
split_onto-append sep [] b h = ground arith
split_onto-append sep (c ∷ a) b h = ground (arith, split_onto-append sep a b)

pub split-append :
    (sep : ℕ) (a b : Text) → Without sep a → split sep (a ++ (sep ∷ b)) ≡ a ∷ split sep b
split-append sep a b h = ground (arith, split_onto-append sep a b h, split_lem (a ++ (sep ∷ b)))
  where
    split_lem : (t : Text) → split sep t ≡ (split_onto sep t).0 ∷ (split_onto sep t).1
    split_lem t = unfold split in refl

split_onto-single : (sep : ℕ) (a : Text) → Without sep a → split_onto sep a ≡ (a, [])
unfolding split_onto
split_onto-single sep [] h = refl
split_onto-single sep (c ∷ a) h = ground (arith, split_onto-single sep a)

pub split-single : (sep : ℕ) (a : Text) → Without sep a → split sep a ≡ a ∷ []
unfolding split
split-single sep a h = ground (arith, split_onto-single sep a h)

pub cut-append : (sep : ℕ) (a b : Text) → Without sep a → cut sep (a ++ (sep ∷ b)) ≡ some (a, b)
unfolding cut
cut-append sep [] b h = ground arith
cut-append sep (c ∷ a) b h = ground (arith, cut-append sep a b)
