-- ===== src/Crontab/Lines.antt =====
-- The lines that are written are read back.
use cronix.Prelude.{
  length, ◌≡◌, List, ◌<◌, ◌∷◌, All, arith, ap, all, map, some, refl, and-true, sym, ltb, [], not,
  ◌∙◌, true, ◌==◌,
}
use cronix.Prelude.Text.{Text, split}
use cronix.Crontab.{drop_cr, drop_empty_end, scan_lines, write_lines, buffer_size}
use cronix.Prelude.Text.Split.{Without, split-append}

-- A line that the file keeps: no newline in it, no carriage return in it, and short enough.
abbrev pub IsLine : Text → Type 0
IsLine t = Without 10 t × Without 13 t × (length t < buffer_size)

drop_cr-Without : (t : Text) → Without 13 t → drop_cr t ≡ t
unfolding drop_cr
drop_cr-Without [] h = refl
drop_cr-Without (c ∷ []) h = ground arith
drop_cr-Without (c ∷ d ∷ t) h =
    ap (◌∷◌ c) (drop_cr-Without (d ∷ t) (and-true (not (c == 13)) _ h).1)

drop_empty_end-cons :
    (t u : Text) (us : List Text) → drop_empty_end (t ∷ u ∷ us) ≡ t ∷ drop_empty_end (u ∷ us)
drop_empty_end-cons t u us = unfold drop_empty_end in refl

split-cons : (t : Text) → (u : Text) × (us : List Text) × (split 10 t ≡ u ∷ us)
unfolding split
split-cons t = (_, _, refl)

pieces_of_lines :
    (lines : List Text) → All IsLine lines → drop_empty_end (split 10 (write_lines lines)) ≡ lines
unfolding write_lines
pieces_of_lines [] h = unfold split drop_empty_end in refl
pieces_of_lines (line ∷ lines) h =
    let (u, us, e) = split-cons (write_lines lines) in
    rw (split-append 10 line (write_lines lines) h.0.0, e, drop_empty_end-cons line u us)
      (ap (◌∷◌ line) (ap drop_empty_end (sym e) ∙ pieces_of_lines lines h.1))

lines_fit :
    (lines : List Text) → All IsLine lines → all (λ t. ltb (length t) buffer_size) lines ≡ true
lines_fit [] h = refl
lines_fit (line ∷ lines) h = ground (arith, lines_fit lines h.1)

drop_cr-lines : (lines : List Text) → All IsLine lines → map drop_cr lines ≡ lines
drop_cr-lines [] h = refl
drop_cr-lines (line ∷ lines) h = rw (drop_cr-Without line h.0.1, drop_cr-lines lines h.1) refl

-- Lines without newlines and carriage returns, each shorter than the scanner's buffer, are what
-- the file holds after they are written.
pub scan_lines-write_lines :
    (lines : List Text) → All IsLine lines → scan_lines (write_lines lines) ≡ some lines
unfolding scan_lines
scan_lines-write_lines lines h =
    rw (pieces_of_lines lines h, lines_fit lines h, drop_cr-lines lines h) refl
