-- ===== src/Systemd/UnitLines.antt =====
-- go/internal/backends/systemd: the annotations that render.go writes are those that parse.go reads.
use cronix.Prelude.{
  ℕ, ◌∷◌, [], List, all, ◌≡◌, All, some, sym, true, append_assoc, ◌≢◌, ◌++◌, refl, ◌∙◌, ap, arith,
  All-append, ◌<◌, get_elem?,
}
use cronix.Prelude.Text.{
  Text, is_digit, cut_prefix, split, codes, cut_prefix-append, trim_space, equal_refl,
}
use cronix.Prelude.Text.Space.{trim_space-Solid, digits-Solid, Word, Solid-Without}
use cronix.Systemd.Units.{
  unlines, line_match, first_match, line_digits, RenderVars, annotation, timer_lines, hash_lines,
  timer_section, drift_hash, timer_end, parse_fields, list_entry, parse_unit, render_units, vars_of,
  service_lines,
}
use cronix.Prelude.Text.Decimal.{
  decimal, decimal-digits, decimal-ne-nil, parse_int, parse_int-decimal,
}
use cronix.Prelude.Text.Split.{Without, split-single, split-append}
use cronix.Policy.{schedule_name}
use cronix.Prelude.Int.{pos}
use cronix.Manifest.{NormalizedJob}
use cronix.Systemd.Calendar.{translate_on_calendar}

split-unlines : (ls : List Text) → All (Without 10) ls → split 10 (unlines ls) ≡ ls ++ ([] ∷ [])
unfolding unlines
split-unlines [] h = split-single 10 [] refl
split-unlines (l ∷ ls) h =
    split-append 10 l (unlines ls) h.0 ∙ ap (λ r. l ∷ r) (split-unlines ls h.1)

line_match-annotation :
    (key : Text) (c : ℕ) (v : Text) → line_match key (annotation key (c ∷ v)) ≡ some (c ∷ v)
unfolding line_match
line_match-annotation key c v =
    rw
      (
        sym (append_assoc key (codes "=") (c ∷ v)),
        cut_prefix-append (key ++ codes "=") (c ∷ v),
        line_match,
      )
      refl

pub first_match-annotation :
    (key : Text) (value : Text) (ls : List Text)
    → Word value
    → first_match (line_match key) (annotation key value ∷ ls) ≡ value
unfolding first_match
first_match-annotation key [] ls h = absurd h
first_match-annotation key (c ∷ v) ls h =
    rw (line_match-annotation key c v, first_match) (trim_space-Solid (c ∷ v) h)

line_digits-annotation :
    (key v : Text) → all is_digit v ≡ true → v ≢ [] → line_digits key (annotation key v) ≡ some v
unfolding line_digits
line_digits-annotation key [] h ne = absurd (ne refl)
line_digits-annotation key (c ∷ v) h ne = rw (line_match-annotation key c v, line_digits, h) refl

first_match-index :
    (key : Text) (n : ℕ) (ls : List Text)
    → first_match (line_digits key) (annotation key (decimal n) ∷ ls) ≡ decimal n
unfolding first_match
first_match-index key n ls =
    rw (line_digits-annotation key (decimal n) (decimal-digits n) (decimal-ne-nil n), first_match)
      (trim_space-Solid (decimal n) (digits-Solid (decimal n) (decimal-digits n)))

-- The lines behind the calendar, as `strings.Split` gives them.
abbrev behind : RenderVars → List Text
behind v = (hash_lines v.hash ++ timer_section v) ++ ([] ∷ [])

hash_line :
    (hash : Text) (ls more : List Text)
    → Word hash
    → first_match (line_match (codes "X-Cronix-Hash")) ((hash_lines hash ++ ls) ++ more) ≡ hash
hash_line [] ls more h = absurd h
hash_line (c ∷ cs) ls more h =
    first_match-annotation (codes "X-Cronix-Hash") (c ∷ cs) (ls ++ more) h

calendar_line :
    (hash calendar : Text) (ls more : List Text)
    → first_match (line_match (codes "OnCalendar")) (
        (hash_lines hash ++ ([] ∷ codes "[Timer]" ∷ annotation (codes "OnCalendar") calendar ∷ ls))
        ++ more)
      ≡ first_match
          (line_match (codes "OnCalendar"))
          (annotation (codes "OnCalendar") calendar ∷ (ls ++ more))
unfolding first_match line_match cut_prefix
calendar_line [] calendar ls more = refl
calendar_line (c ∷ cs) calendar ls more = refl

first_match-value :
    (key : Text) (c : ℕ) (v : Text) (ls : List Text)
    → first_match (line_match key) (annotation key (c ∷ v) ∷ ls) ≡ trim_space (c ∷ v)
unfolding first_match
first_match-value key c v ls = rw (line_match-annotation key c v, first_match) refl

-- What is read from the lines of a rendered timer, one key at a time.
module _ (v : RenderVars) where
  abbrev all_lines : List Text
  all_lines = timer_lines v ++ ([] ∷ [])

  app_line :
      Word v.app
      → first_match (line_match (codes "X-Cronix-App")) (timer_lines v ++ ([] ∷ [])) ≡ v.app
  unfolding timer_lines first_match line_match cut_prefix
  app_line h = first_match-annotation (codes "X-Cronix-App") v.app (behind v) h

  job_line :
      Word v.job
      → first_match (line_match (codes "X-Cronix-Job")) (timer_lines v ++ ([] ∷ [])) ≡ v.job
  unfolding timer_lines first_match line_match cut_prefix
  job_line h = first_match-annotation (codes "X-Cronix-Job") v.job (behind v) h

  index_line :
      first_match (line_digits (codes "X-Cronix-Index")) (timer_lines v ++ ([] ∷ []))
      ≡ decimal v.index
  unfolding timer_lines first_match line_digits line_match cut_prefix
  index_line = first_match-index (codes "X-Cronix-Index") v.index (behind v)

  hash_line_of :
      Word v.hash
      → first_match (line_match (codes "X-Cronix-Hash")) (timer_lines v ++ ([] ∷ [])) ≡ v.hash
  unfolding timer_lines first_match line_match cut_prefix
  hash_line_of h = hash_line v.hash (timer_section v) ([] ∷ []) h

  -- The two lines of a calendar that is not empty are read alike.
  calendars :
      (c : ℕ) (cs : Text)
      → v.on_calendar ≡ c ∷ cs
      → (first_match (line_match (codes "X-Cronix-OnCalendar")) (timer_lines v ++ ([] ∷ []))
          ≡ trim_space (c ∷ cs))
        × (first_match (line_match (codes "OnCalendar")) (timer_lines v ++ ([] ∷ []))
            ≡ trim_space (c ∷ cs))
  unfolding timer_lines first_match line_match cut_prefix
  calendars c cs e = (
    rw e (first_match-value (codes "X-Cronix-OnCalendar") c cs (behind v)),
    calendar_line v.hash v.on_calendar (timer_end v) ([] ∷ [])
        ∙ rw e (first_match-value (codes "OnCalendar") c cs (timer_end v ++ ([] ∷ []))),
  )

drift_hash-same : (t hash : Text) → drift_hash t t hash ≡ hash
drift_hash-same [] hash = refl
drift_hash-same (c ∷ t) hash = rw (equal_refl (c ∷ t)) refl

-- A value of one line.
abbrev pub Line : Text → Type 0
Line [] = ⊥
Line (c ∷ cs) = Without 10 (c ∷ cs)

Word-Line : (t : Text) → Word t → Line t
Word-Line [] h = h
Word-Line (c ∷ t) h = Solid-Without (c ∷ t) h

Line-Without : (t : Text) → Line t → Without 10 t
Line-Without [] h = refl
Line-Without (c ∷ t) h = h

Without-append : (a b : Text) → Without 10 a → Without 10 b → Without 10 (a ++ b)
Without-append [] b h k = k
Without-append (c ∷ a) b h k = ground (arith, Without-append a b)

decimal-Without : (n : ℕ) → Without 10 (decimal n)
decimal-Without n = Solid-Without (decimal n) (digits-Solid (decimal n) (decimal-digits n))

hash_lines-Without : (hash : Text) → Without 10 hash → All (Without 10) (hash_lines hash)
hash_lines-Without [] h = tt
hash_lines-Without (c ∷ cs) h = (h, tt)

schedule_name-Without :
    (app job : Text) (i : ℕ)
    → Without 10 app
    → Without 10 job
    → Without 10 (schedule_name app job i)
unfolding schedule_name
schedule_name-Without app job i h k =
    Without-append app _ h (Without-append job _ k (decimal-Without i))

timer_lines-Without :
    (v : RenderVars)
    → Without 10 v.app
    → Without 10 v.job
    → Without 10 v.unit_name
    → Without 10 v.on_calendar
    → Without 10 v.hash
    → All (Without 10) (timer_lines v)
unfolding timer_lines
timer_lines-Without v a j u c h =
    let service : Without 10 (v.unit_name ++ codes ".service") =
      Without-append v.unit_name (codes ".service") u refl in
    (
      refl,
      (
        Without-append v.app _ a (
            Without-append v.job _ j
              (Without-append (decimal v.index) (codes ")") (decimal-Without v.index) refl)),
        (
          service,
          (
            a,
            (
              j,
              (
                decimal-Without v.index,
                (
                  c,
                  All-append (Without 10) (hash_lines v.hash) (timer_section v)
                      (hash_lines-Without v.hash h)
                      (refl, (refl, (c, (service, (refl, (refl, (refl, (refl, tt)))))))),
                ),
              ),
            ),
          ),
        ),
      ),
    )

parse_fields-some :
    (app job hash : Text) (n : ℕ)
    → Word app
    → Word job
    → n < 9223372036854775808
    → parse_fields app job (decimal n) hash
      ≡ some (record { app = app; job = job; hash = hash; index = n; raw = [] })
unfolding parse_fields
parse_fields-some [] job hash n a j h = absurd a
parse_fields-some (x ∷ app) [] hash n a j h = absurd j
parse_fields-some (x ∷ app) (y ∷ job) hash n a j h =
    by_digits (decimal n) (decimal-ne-nil n) (parse_int-decimal n h)
  where
    by_digits :
        (t : Text)
        → t ≢ []
        → parse_int t ≡ some (pos n)
        → parse_fields (x ∷ app) (y ∷ job) t hash
          ≡ some (record { app = x ∷ app; job = y ∷ job; hash = hash; index = n; raw = [] })
    by_digits [] ne e = absurd (ne refl)
    by_digits (c ∷ t) ne e = rw (e, parse_fields) refl

Line-cons : (t : Text) → Line t → (c : ℕ) × ((cs : Text) × (t ≡ c ∷ cs))
Line-cons [] h = absurd h
Line-cons (c ∷ cs) h = (c, (cs, refl))

-- What `List` reads of a timer that was rendered with values of one line.
list_entry-timer :
    (v : RenderVars) (path : Text)
    → Word v.app
    → Word v.job
    → Word v.hash
    → Line v.on_calendar
    → Without 10 v.unit_name
    → v.index < 9223372036854775808
    → list_entry path (unlines (timer_lines v))
      ≡ some (record { app = v.app; job = v.job; hash = v.hash; index = v.index; raw = path })
unfolding list_entry parse_unit
list_entry-timer v path a j h c u n =
    let (d, (ds, e)) = Line-cons v.on_calendar c in
    let (want, actual) = calendars v d ds e in
    let lines = split-unlines (timer_lines v) (
      timer_lines-Without v (Line-Without v.app (Word-Line v.app a))
        (Line-Without v.job (Word-Line v.job j)) u (Line-Without v.on_calendar c)
        (Line-Without v.hash (Word-Line v.hash h))) in
    rw
      (
        lines,
        list_entry,
        parse_unit,
        app_line v a,
        job_line v j,
        index_line v,
        hash_line_of v h,
        parse_fields-some v.app v.job v.hash v.index a j n,
      )
      (rw (lines, want, actual)
        (ap (λ x. some (record { app = v.app; job = v.job; hash = x; index = v.index; raw = path }))
          (drift_hash-same (trim_space (d ∷ ds)) v.hash)))

-- The units that `Create` renders for a schedule that systemd can express, of a job whose name and
-- app id contain no white space, with a hash: the timer is listed with the app, the job, the index
-- and the hash, and with no drift. The calendar is one line.
pub list_entry-render_units :
    (trigger_bin path app : Text) (job : NormalizedJob) (idx : ℕ) (hash s calendar : Text)
    → get_elem? job.schedules idx ≡ some s
    → translate_on_calendar s ≡ some calendar
    → Word app
    → Word job.name
    → Word hash
    → Line calendar
    → idx < 9223372036854775808
    → (timer : Text) × ((service : Text) × ((render_units trigger_bin app job idx hash
            ≡ some (timer, service))
          × (list_entry path timer
              ≡ some (record { app = app; job = job.name; hash = hash; index = idx; raw = path }))))
unfolding render_units vars_of
list_entry-render_units trigger_bin path app job idx hash s calendar es ec a j h c n =
    let v = vars_of trigger_bin app job idx hash calendar in
    (
      unlines (timer_lines v),
      (
        unlines (service_lines v),
        (
          rw (es, ec, render_units) refl,
          list_entry-timer v path a j h c
              (schedule_name-Without app job.name idx (Line-Without app (Word-Line app a))
                (Line-Without job.name (Word-Line job.name j)))
              n,
        ),
      ),
    )
