-- ===== src/Policy/Names.antt =====
-- go/internal/policy/policy.go: which schedules have one name.
use cronix.Prelude.{ℕ, ◌++◌, ◌≡◌, ◌∷◌, all, ◌⊎◌, arith, [], subst, true, refl, ◌≢◌, inl, sym, inr}
use cronix.Prelude.Text.{Text, is_digit}
use cronix.Prelude.Text.Split.{Without}
use cronix.Policy.{schedule_name, schedule_prefix}
use cronix.Prelude.Text.Decimal.{decimal, decimal-digits, decimal-injective}

pub append-cancel : (a x y : Text) → a ++ x ≡ a ++ y → x ≡ y
append-cancel [] x y e = e
append-cancel (c ∷ a) x y e = append-cancel a x y cc

Without-append : (sep : ℕ) (a x : Text) → ¬ Without sep (a ++ (sep ∷ x))
Without-append sep [] x h = ground arith
Without-append sep (c ∷ a) x h = Without-append sep a x (ground arith)

Without-head : (sep c : ℕ) (a : Text) → Without sep (c ∷ a) → c ≢ sep
Without-head sep c a h = ground arith

-- A text is cut in one way at a separator that is the last one.
pub split_last :
    (sep : ℕ) (a b x y : Text)
    → Without sep x
    → Without sep y
    → a ++ (sep ∷ x) ≡ b ++ (sep ∷ y)
    → (a ≡ b) × (x ≡ y)
split_last sep [] [] x y hx hy e = (refl, cc e)
split_last sep [] (d ∷ b) x y hx hy e =
    absurd (Without-append sep b y (subst (Without sep) (cc e) hx))
split_last sep (c ∷ a) [] x y hx hy e =
    absurd (Without-append sep a x (subst (Without sep) (cc e) hy))
split_last sep (c ∷ a) (d ∷ b) x y hx hy e = let (p, q) = split_last sep a b x y hx hy cc in (cc, q)

-- ... and at one that is the first one.
pub split_first :
    (sep : ℕ) (a b x y : Text)
    → Without sep a
    → Without sep b
    → a ++ (sep ∷ x) ≡ b ++ (sep ∷ y)
    → (a ≡ b) × (x ≡ y)
split_first sep [] [] x y hx hy e = (refl, cc e)
split_first sep [] (d ∷ b) x y hx hy e = absurd (Without-head sep d b hy (cc e))
split_first sep (c ∷ a) [] x y hx hy e = absurd (Without-head sep c a hx (cc e))
split_first sep (c ∷ a) (d ∷ b) x y hx hy e =
    let (p, q) = split_first sep a b x y (ground arith) (ground arith) cc in (cc, q)

pub decimal-Without : (n : ℕ) → Without b'-' (decimal n)
decimal-Without n = digits-Without (decimal n) (decimal-digits n)
  where
    digits-Without : (t : Text) → all is_digit t ≡ true → Without b'-' t
    digits-Without [] h = refl
    digits-Without (c ∷ t) h = ground (arith, digits-Without t)

by_job :
    (job job' : Text) (i j : ℕ)
    → job ++ (b'-' ∷ decimal i) ≡ job' ++ (b'-' ∷ decimal j)
    → (job ≡ job') × (i ≡ j)
by_job job job' i j e =
    let (jobs, digits) =
      split_last b'-' job job' (decimal i) (decimal j) (decimal-Without i) (decimal-Without j) e in
    (jobs, decimal-injective i j digits)

-- Schedules of one app, or of apps whose ids have no hyphen, have one name only if they have the
-- same app, job and index.
pub schedule_name-injective :
    (app app' job job' : Text) (i j : ℕ)
    → (app ≡ app') ⊎ (Without b'-' app × Without b'-' app')
    → schedule_name app job i ≡ schedule_name app' job' j
    → (app ≡ app') × ((job ≡ job') × (i ≡ j))
unfolding schedule_name
schedule_name-injective app app' job job' i j (inl same) e =
    let rest =
      append-cancel schedule_prefix (app ++ (b'-' ∷ (job ++ (b'-' ∷ decimal i))))
        (app' ++ (b'-' ∷ (job' ++ (b'-' ∷ decimal j)))) e in
    let tails =
      append-cancel app (b'-' ∷ (job ++ (b'-' ∷ decimal i))) (b'-' ∷ (job' ++ (b'-' ∷ decimal j))) (
        subst
          (λ a.
            app ++ (b'-' ∷ (job ++ (b'-' ∷ decimal i)))
            ≡ a ++ (b'-' ∷ (job' ++ (b'-' ∷ decimal j))))
          (sym same) rest) in
    let (jobs, indices) = by_job job job' i j (cc tails) in (same, (jobs, indices))
schedule_name-injective app app' job job' i j (inr (h, h')) e =
    let rest =
      append-cancel schedule_prefix (app ++ (b'-' ∷ (job ++ (b'-' ∷ decimal i))))
        (app' ++ (b'-' ∷ (job' ++ (b'-' ∷ decimal j)))) e in
    let (apps, tails) =
      split_first b'-' app app' (job ++ (b'-' ∷ decimal i)) (job' ++ (b'-' ∷ decimal j)) h h'
        rest in
    let (jobs, indices) = by_job job job' i j tails in (apps, (jobs, indices))
