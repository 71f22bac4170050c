-- ===== src/Prelude/Sort.antt =====
-- `sort.SliceStable` and `sort.Strings` by a key of type string, as a stable insertion sort.
use cronix.Prelude.{
  true, false, ◌≡◌, refl, inl, inr, List, [], ◌∷◌, if◌then◌else◌, length, All, arith, Bool-cases,
  suc,
}
use cronix.Prelude.Text.{Text, less}

module _ {A : Type 0} (key : A → Text) where
  -- Before the first element whose key is not smaller, so that equal keys keep their order.
  unfoldable pub insert_by : A → List A → List A
  insert_by x [] = x ∷ []
  insert_by x (y ∷ ys) =
      let rest = insert_by x ys in if less (key y) (key x) then y ∷ rest else x ∷ y ∷ ys

  unfoldable pub sort_by : List A → List A
  unfolding insert_by
  sort_by [] = []
  sort_by (x ∷ xs) = insert_by x (sort_by xs)

  length-insert_by : (x : A) (xs : List A) → length (insert_by x xs) ≡ suc (length xs)
  unfolding insert_by
  length-insert_by x [] = refl
  length-insert_by x (y ∷ ys) = ground (arith, length-insert_by x ys)

  pub length-sort_by : (xs : List A) → length (sort_by xs) ≡ length xs
  unfolding sort_by
  length-sort_by [] = refl
  length-sort_by (x ∷ xs) = ground (arith, length-insert_by x (sort_by xs), length-sort_by xs)

  All-insert_by {κ} :
      (P : A → Type κ) (x : A) (xs : List A) → P x → All P xs → All P (insert_by x xs)
  unfolding insert_by
  All-insert_by P x [] p h = (p, tt)
  All-insert_by P x (y ∷ ys) p h = elim (Bool-cases (less (key y) (key x))) [
    | inl e ↦ rw e (h.0, All-insert_by P x ys p h.1)
    | inr e ↦ rw e (p, h)
  ]

  -- What holds of every element holds of every element of the sorted list.
  pub All-sort_by {κ} : (P : A → Type κ) (xs : List A) → All P xs → All P (sort_by xs)
  unfolding sort_by
  All-sort_by P [] h = tt
  All-sort_by P (x ∷ xs) h = All-insert_by P x (sort_by xs) h.0 (All-sort_by P xs h.1)

  -- No element has a smaller key than one that stands right before it.
  abbrev pub Ascending : List A → Type 0
  Ascending [] = Unit
  Ascending (x ∷ []) = Unit
  Ascending (x ∷ y ∷ ys) = (less (key y) (key x) ≡ false) × Ascending (y ∷ ys)

-- `<` on strings is asymmetric.
pub less_asymm : (a b : Text) → less a b ≡ true → less b a ≡ false
unfolding less
less_asymm [] [] h = refl
less_asymm [] (y ∷ b) h = refl
less_asymm (x ∷ a) [] h = cc
less_asymm (x ∷ a) (y ∷ b) h = ground (arith, less_asymm a b)

module _ {A : Type 0} (key : A → Text) where
  Ascending-insert_by_after :
      (x y : A) (ys : List A)
      → less (key x) (key y) ≡ false
      → Ascending key (y ∷ ys)
      → Ascending key (insert_by key x ys)
      → Ascending key (y ∷ insert_by key x ys)
  unfolding insert_by
  Ascending-insert_by_after x y [] e h k = (e, tt)
  Ascending-insert_by_after x y (z ∷ zs) e h k = elim (Bool-cases (less (key z) (key x))) [
    | inl l ↦ rw (l, insert_by) (h.0, rw (l, insert_by) at k)
    | inr l ↦ rw (l, insert_by) (e, rw (l, insert_by) at k)
  ]

  Ascending-insert_by :
      (x : A) (xs : List A) → Ascending key xs → Ascending key (insert_by key x xs)
  unfolding insert_by
  Ascending-insert_by x [] h = tt
  Ascending-insert_by x (y ∷ []) h = elim (Bool-cases (less (key y) (key x))) [
    | inl e ↦ rw e (less_asymm (key y) (key x) e, tt)
    | inr e ↦ rw e (e, tt)
  ]
  Ascending-insert_by x (y ∷ z ∷ zs) h = elim (Bool-cases (less (key y) (key x))) [
    | inl e ↦ rw e (
        Ascending-insert_by_after x y (z ∷ zs) (less_asymm (key y) (key x) e) h
          (Ascending-insert_by x (z ∷ zs) h.1))
    | inr e ↦ rw e (e, h)
  ]

  pub Ascending-sort_by : (xs : List A) → Ascending key (sort_by key xs)
  unfolding sort_by
  Ascending-sort_by [] = tt
  Ascending-sort_by (x ∷ xs) = Ascending-insert_by x (sort_by key xs) (Ascending-sort_by xs)
