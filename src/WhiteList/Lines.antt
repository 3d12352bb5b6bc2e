-- ===== src/WhiteList/Lines.antt =====
-- pkg/admissions/pods/whitelist.go: `parseLineSeparatedList` and the `strings.Join` that prints its
-- result.
use image_validating_webhook.Base.{
  ◌≡◌, refl, ap, ◌∙◌, inl, inr, false, List, [], ◌∷◌, is_empty, All, Text, Bool-cases,
  all-trim_space, trim_space_idem, trim_space, split, join, Lacks, split-part, split-append,
  split-Lacks,
}
use image_validating_webhook.WhiteList.{delimiter, keep_lines, parse_line_separated_list}

-- A line of the list as the parser leaves it: one character at least, no newline, and no space at
-- either end.
pub record IsLine (s : Text) : Type 0 where
  pub nonempty : is_empty s ≡ false
  pub one_line : Lacks delimiter s
  pub is_trimmed : trim_space s ≡ s

keep_lines-IsLine : (ps : List Text) → All IsLine ps → keep_lines ps ≡ ps
unfolding keep_lines
keep_lines-IsLine [] h = refl
keep_lines-IsLine (p ∷ ps) (l, h) = rw (l.is_trimmed, l.nonempty, keep_lines-IsLine ps h)

split-join :
    (p : Text) (ps : List Text)
    → All IsLine (p ∷ ps)
    → split (join (p ∷ ps) delimiter) delimiter ≡ p ∷ ps
unfolding join
split-join p [] (l, _) = split-part p delimiter l.one_line
split-join p (q ∷ ps) (l, h) =
    split-append p (join (q ∷ ps) delimiter) delimiter l.one_line
    ∙ ap (λ qs. p ∷ qs) (split-join q ps h)

-- A list of lines is what its printed form is parsed to.
pub parse_line_separated_list-join :
    (ps : List Text) → All IsLine ps → parse_line_separated_list (join ps delimiter) ≡ ps
unfolding parse_line_separated_list join split trim_space
parse_line_separated_list-join [] h = refl
parse_line_separated_list-join (p ∷ ps) h =
    ap keep_lines (split-join p ps h) ∙ keep_lines-IsLine (p ∷ ps) h

keep_lines-All : (ps : List Text) → All (Lacks delimiter) ps → All IsLine (keep_lines ps)
unfolding keep_lines
keep_lines-All [] h = tt
keep_lines-All (p ∷ ps) (l, h) = elim (Bool-cases (is_empty (trim_space p))) [
  | inl empty ↦ rw empty (keep_lines-All ps h)
  | inr some_text ↦ rw some_text (
    record {
      nonempty = some_text;
      one_line = all-trim_space _ p l;
      is_trimmed = trim_space_idem p;
    },
    keep_lines-All ps h,
  )
]

-- Whatever the text, the parser leaves lines only.
pub parse_line_separated_list-IsLine : (s : Text) → All IsLine (parse_line_separated_list s)
unfolding parse_line_separated_list
parse_line_separated_list-IsLine s = keep_lines-All (split s delimiter) (split-Lacks s delimiter)

-- Every text is read to a list of lines, each trimmed, not empty and without a newline; and the
-- list, printed with a newline between its lines, is read to itself.
pub parse_line_separated_list_normal :
    (s : Text)
    → All IsLine (parse_line_separated_list s)
      × (parse_line_separated_list (join (parse_line_separated_list s) delimiter)
          ≡ parse_line_separated_list s)
parse_line_separated_list_normal s = (
  parse_line_separated_list-IsLine s,
  parse_line_separated_list-join _ (parse_line_separated_list-IsLine s),
)
