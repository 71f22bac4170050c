-- ===== src/Crontab/OwnerLine.antt =====
-- The ownership comment that is rendered is read back.
use cronix.Prelude.{
  ℕ, Bool, ◌≡◌, ◌≢◌, all, true, [], false, ◌++◌, ◌∷◌, leb, some, length, refl, arith,
}
use cronix.Prelude.Text.{Text, span-append, span-all, cut_prefix-append, codes, is_digit}
use cronix.Manifest.Validate.{is_id_byte, match_id}
use cronix.Crontab.Owner.{
  group, match_owner, owner_line, is_hex, is_hash, finish_owner, owner_marker,
}
use cronix.Prelude.Text.Decimal.{decimal, decimal-digits, decimal-ne-nil}

group-run :
    (literal run : Text) (class : ℕ → Bool) (admits : Text → Bool) (c : ℕ) (rest : Text)
    → all class run ≡ true
    → class c ≡ false
    → admits run ≡ true
    → group literal class admits (literal ++ (run ++ (c ∷ rest))) ≡ some (run, c ∷ rest)
unfolding group
group-run literal run class admits c rest h e a =
    rw (cut_prefix-append literal (run ++ (c ∷ rest)), span-append class run c rest h e, a, group)
      refl

group-end :
    (literal run : Text) (class : ℕ → Bool) (admits : Text → Bool)
    → all class run ≡ true
    → admits run ≡ true
    → group literal class admits (literal ++ run) ≡ some (run, [])
unfolding group
group-end literal run class admits h a =
    rw (cut_prefix-append literal run, span-all class run h, a, group) refl

match_id-all : (t : Text) → match_id t ≡ true → all is_id_byte t ≡ true
unfolding match_id
match_id-all [] h = refl
match_id-all (c ∷ cs) h = ground arith

digits-leb : (t : Text) → t ≢ [] → leb 1 (length t) ≡ true
digits-leb [] h = absurd (h refl)
digits-leb (c ∷ t) h = ground arith

-- The comment of a job with a valid app id and name, and a hash of 1 to 64 hexadecimal digits,
-- matches, with the app, the job, the hash and the digits of the index as its groups.
pub match_owner-owner_line :
    (app job hash : Text) (idx : ℕ)
    → match_id app ≡ true
    → match_id job ≡ true
    → all is_hex hash ≡ true
    → is_hash hash ≡ true
    → match_owner (owner_line app job hash idx)
      ≡ some (record { app = app; job = job; hash = hash; idx = decimal idx })
unfolding match_owner owner_line
match_owner-owner_line app job hash idx a j h l =
    rw
      (
        group-run (owner_marker ++ codes " app=") app is_id_byte match_id b' ' _
            (match_id-all app a) refl a,
        group-run (codes " job=") job is_id_byte match_id b' ' _ (match_id-all job j) refl j,
        group-run (codes " hash=") hash is_hex is_hash b' ' _ h refl l,
        group-end (codes " idx=") (decimal idx) is_digit (λ t. leb 1 (length t))
            (decimal-digits idx) (digits-leb (decimal idx) (decimal-ne-nil idx)),
        match_owner,
        owner_line,
        finish_owner,
      )
      refl
