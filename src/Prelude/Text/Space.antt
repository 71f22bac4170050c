-- ===== src/Prelude/Text/Space.antt =====
-- Laws of `strings.TrimSpace` and `strings.Fields` on text without white space.
use cronix.Prelude.Text.{
  Text, trim_left, trim_space, fields_onto, fields, is_digit, add_run, is_space,
}
use cronix.Prelude.{all, not, ◌≡◌, ◌∷◌, ◌++◌, arith, true, [], ℕ, refl, ap}
use mathlib.Core.List.{reverse_aux, reverse, reverse-reverse}
use cronix.Prelude.Text.Split.{Without}

-- No byte is white space.
abbrev pub Solid : Text → Type 0
Solid t = all (λ c. not (is_space c)) t ≡ true

-- Not empty, and no byte is white space.
abbrev pub Word : Text → Type 0
Word [] = ⊥
Word (c ∷ cs) = Solid (c ∷ cs)

trim_left-Solid : (t : Text) → Solid t → trim_left t ≡ t
unfolding trim_left
trim_left-Solid [] h = refl
trim_left-Solid (c ∷ t) h = ground arith

reverse_aux-Solid : (t r : Text) → Solid t → Solid r → Solid (reverse_aux t r)
reverse_aux-Solid [] r h k = k
reverse_aux-Solid (c ∷ t) r h k = reverse_aux-Solid t (c ∷ r) (ground arith) (ground arith)

pub trim_space-Solid : (t : Text) → Solid t → trim_space t ≡ t
unfolding trim_space
trim_space-Solid t h =
    rw
      (trim_left-Solid t h, trim_space, trim_left-Solid (reverse t) (reverse_aux-Solid t [] h refl))
      (reverse-reverse t)

pub digits-Solid : (t : Text) → all is_digit t ≡ true → Solid t
digits-Solid [] h = refl
digits-Solid (c ∷ t) h = ground (arith, digits-Solid t)

fields_onto-append : (a b : Text) → Solid a → fields_onto (a ++ (32 ∷ b)) ≡ (a, fields b)
unfolding fields_onto fields
fields_onto-append [] b h = refl
fields_onto-append (c ∷ a) b h = ground (arith, fields_onto-append a b)

fields_onto-Solid : (a : Text) → Solid a → fields_onto a ≡ (a, [])
unfolding fields_onto
fields_onto-Solid [] h = refl
fields_onto-Solid (c ∷ a) h = ground (arith, fields_onto-Solid a)

-- A word, a space and more.
pub fields-append :
    (c : ℕ) (a b : Text) → Solid (c ∷ a) → fields ((c ∷ a) ++ (32 ∷ b)) ≡ (c ∷ a) ∷ fields b
unfolding fields add_run
fields-append c a b h = ap (λ r. add_run r.0 r.1) (fields_onto-append (c ∷ a) b h)

pub fields-Solid : (c : ℕ) (a : Text) → Solid (c ∷ a) → fields (c ∷ a) ≡ (c ∷ a) ∷ []
unfolding fields add_run
fields-Solid c a h = ap (λ r. add_run r.0 r.1) (fields_onto-Solid (c ∷ a) h)

-- White space in front is passed over.
pub fields-space : (t : Text) → fields (32 ∷ t) ≡ fields t
unfolding fields fields_onto add_run
fields-space t = refl

-- No line feed is in a text without white space.
pub Solid-Without : (t : Text) → Solid t → Without 10 t
Solid-Without [] h = refl
Solid-Without (c ∷ t) h = ground (arith, Solid-Without t)
