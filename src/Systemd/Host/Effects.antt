-- ===== src/Systemd/Host/Effects.antt =====
-- go/internal/backends/systemd/backend.go: what `Create` and `Delete` do to the unit directory.
use cronix.Prelude.{
  List, Option, ◌≡◌, none, some, false, ◌∷◌, arith, if◌then◌else◌, [], refl, All, In, ◌∙◌, inl,
  subst, true, inr, Bool-cases, ◌⊎◌, sym,
}
use cronix.Prelude.Text.{Text, equal, equal_refl, equal_iff, codes}
use cronix.Systemd.Host.{
  put_file, remove_file, Machine, service_of, delete_units, matches, run, glob, remove_unit, Host,
  Outcome, ◌and_then◌,
}

unfoldable pub contents_of : Text → List (Text × Text) → Option Text
contents_of name [] = none
contents_of name (f ∷ fs) =
    let rest = contents_of name fs in if equal f.0 name then some f.1 else rest

pub contents_of-put_same :
    (name contents : Text) (fs : List (Text × Text))
    → contents_of name (put_file name contents fs) ≡ some contents
unfolding contents_of put_file
contents_of-put_same name contents [] = ground (arith, equal_refl name)
contents_of-put_same name contents (f ∷ fs) =
    ground (arith, equal_refl name, contents_of-put_same name contents fs)

pub contents_of-put_other :
    (k name contents : Text) (fs : List (Text × Text))
    → equal name k ≡ false
    → contents_of k (put_file name contents fs) ≡ contents_of k fs
unfolding contents_of put_file
contents_of-put_other k name contents [] h = ground arith
contents_of-put_other k name contents (f ∷ fs) h =
    ground (arith, equal_iff f.0 name, contents_of-put_other k name contents fs h)

contents_of-remove_same :
    (name : Text) (fs : List (Text × Text)) → contents_of name (remove_file name fs) ≡ none
unfolding contents_of remove_file
contents_of-remove_same name [] = refl
contents_of-remove_same name (f ∷ fs) = ground (arith, contents_of-remove_same name fs)

contents_of-remove_other :
    (k name : Text) (fs : List (Text × Text))
    → equal name k ≡ false
    → contents_of k (remove_file name fs) ≡ contents_of k fs
unfolding contents_of remove_file
contents_of-remove_other k name [] h = refl
contents_of-remove_other k name (f ∷ fs) h =
    ground (arith, equal_iff f.0 name, contents_of-remove_other k name fs h)

contents_of-remove_none :
    (k name : Text) (fs : List (Text × Text))
    → contents_of k fs ≡ none
    → contents_of k (remove_file name fs) ≡ none
unfolding contents_of remove_file
contents_of-remove_none k name [] h = refl
contents_of-remove_none k name (f ∷ fs) h = ground (arith, contents_of-remove_none k name fs)

-- No call of the operating system fails.
pub record Calm (m : Machine) : Type 0 where
  pub runs : (args : List Text) → m.systemctl args ≡ none
  pub makes : m.mkdir ≡ none
  pub writes : (name : Text) → m.write name ≡ none
  pub removes : (name : Text) → m.remove name ≡ none

pub and_then-none :
    (o : Outcome) (next : Host → Outcome) → o.1 ≡ none → (o and_then next) ≡ next o.0
and_then-none (h, none) next e = refl
and_then-none (h, some err) next e = absurd (cc e)

unfoldable pub remove_units : List Text → List (Text × Text) → List (Text × Text)
remove_units [] fs = fs
remove_units (t ∷ ts) fs = remove_units ts (remove_file (service_of t) (remove_file t fs))

pub delete_units-files :
    (m : Machine) (timers : List Text) (h : Host)
    → Calm m
    → ((delete_units m timers h).1 ≡ none)
      × ((delete_units m timers h).0.files ≡ remove_units timers h.files)
unfolding remove_units delete_units run remove_unit
delete_units-files m [] h calm = (refl, refl)
delete_units-files m (t ∷ ts) h calm =
    rw
      (
        calm.runs (codes "disable" ∷ codes "--now" ∷ t ∷ []),
        delete_units,
        run,
        calm.removes t,
        remove_unit,
        calm.removes (service_of t),
      )
      (delete_units-files m ts _ calm)

pub remove_units-other :
    (k : Text) (ts : List Text) (fs : List (Text × Text))
    → All (λ t. (equal t k ≡ false) × (equal (service_of t) k ≡ false)) ts
    → contents_of k (remove_units ts fs) ≡ contents_of k fs
unfolding remove_units
remove_units-other k [] fs h = refl
remove_units-other k (t ∷ ts) fs h =
    remove_units-other k ts (remove_file (service_of t) (remove_file t fs)) h.1
    ∙ (contents_of-remove_other k (service_of t) (remove_file t fs) h.0.1
        ∙ contents_of-remove_other k t fs h.0.0)

pub remove_units-none :
    (k : Text) (ts : List Text) (fs : List (Text × Text))
    → contents_of k fs ≡ none
    → contents_of k (remove_units ts fs) ≡ none
unfolding remove_units
remove_units-none k [] fs h = h
remove_units-none k (t ∷ ts) fs h =
    remove_units-none k ts _ (
      contents_of-remove_none k (service_of t) (remove_file t fs)
        (contents_of-remove_none k t fs h))

pub remove_units-own :
    (k : Text) (ts : List Text) (fs : List (Text × Text))
    → In k ts
    → contents_of k (remove_units ts fs) ≡ none
unfolding remove_units
remove_units-own k [] fs h = absurd h
remove_units-own k (t ∷ ts) fs (inl e) = remove_units-none k ts _ (
    contents_of-remove_none k (service_of t) (remove_file t fs)
      (subst (λ x. contents_of x (remove_file t fs) ≡ none) e (contents_of-remove_same t fs)))
remove_units-own k (t ∷ ts) fs (inr h) = remove_units-own k ts _ h

pub matches-glob :
    (prefix : Text) (fs : List (Text × Text)) → All (λ t. glob prefix t ≡ true) (matches prefix fs)
unfolding matches
matches-glob prefix [] = tt
matches-glob prefix (f ∷ fs) = elim (Bool-cases (glob prefix f.0)) [
  | inl e ↦ rw (e, matches) (e, matches-glob prefix fs)
  | inr e ↦ rw (e, matches) (matches-glob prefix fs)
]

-- A name that fits the pattern is matched, or no file has it.
pub matches_complete :
    (prefix k : Text) (fs : List (Text × Text))
    → glob prefix k ≡ true
    → In k (matches prefix fs) ⊎ (contents_of k fs ≡ none)
unfolding matches contents_of
matches_complete prefix k [] h = inr refl
matches_complete prefix k (f ∷ fs) h = elim (Bool-cases (equal f.0 k)) [
  | inl e ↦
      let same = (equal_iff f.0 k).0 e in
      rw (subst (λ x. glob prefix x ≡ true) (sym same) h, matches) (inl (inl same))
  | inr e ↦ elim (matches_complete prefix k fs h) [
    | inl i ↦ inl (elim (Bool-cases (glob prefix f.0)) [
      | inl g ↦ rw (g, matches) (inr i)
      | inr g ↦ rw (g, matches) i
    ])
    | inr n ↦ inr (rw (e, contents_of) n)
  ]
]
