-- ===== src/Text/Lines.antt =====
-- Python's `str.splitlines`, and `"\n".join`.
use relay_x.Prelude.{
  ℕ, List, [], ◌∷◌, ◌++◌, ◌≡◌, refl, ap, ◌∙◌, Bool, true, false, not, ◌&&◌, ◌==◌, All, all, &&_iff,
  if◌then◌else◌, arith,
}
use relay_x.Text.{Text}
use relay_x.Text.Split.{has_char}

-- Where a line ends.
abbrev pub is_break : ℕ → Bool
is_break = λ c. has_char c (10 ∷ 11 ∷ 12 ∷ 13 ∷ 28 ∷ 29 ∷ 30 ∷ 0x85 ∷ 0x2028 ∷ 0x2029 ∷ [])

abbrev starts_line : Text → Bool
starts_line [] = false
starts_line (c ∷ s) = c == 10

-- One more character of the first line.
abbrev pub extend : ℕ → List Text → List Text
extend c [] = (c ∷ []) ∷ []
extend c (line ∷ lines) = (c ∷ line) ∷ lines

-- text.splitlines(): "\r\n" ends one line.
unfoldable pub split_lines : Text → List Text
split_lines [] = []
split_lines (c ∷ s) =
    let lines = split_lines s in
    if c == 13 && starts_line s then lines else if is_break c then [] ∷ lines else extend c lines

-- "\n".join(lines)
unfoldable pub join_lines : List Text → Text
join_lines [] = []
join_lines (line ∷ []) = line
join_lines (line ∷ next ∷ lines) = line ++ (10 ∷ join_lines (next ∷ lines))

abbrev pub is_line : Text → Bool
is_line = all (λ c. not (is_break c))

abbrev pub IsLine : Text → Type 0
IsLine line = is_line line ≡ true

split_lines_step :
    (c : ℕ) (s : Text) → not (is_break c) ≡ true → split_lines (c ∷ s) ≡ extend c (split_lines s)
unfolding split_lines
split_lines_step c s h = ground arith

split_lines_newline : (rest : Text) → split_lines (10 ∷ rest) ≡ [] ∷ split_lines rest
unfolding split_lines
split_lines_newline rest = refl

split_lines_nil : split_lines [] ≡ []
unfolding split_lines
split_lines_nil = refl

split_lines-append :
    (line rest : Text) → IsLine line → split_lines (line ++ (10 ∷ rest)) ≡ line ∷ split_lines rest
split_lines-append [] rest h = split_lines_newline rest
split_lines-append (c ∷ line) rest h =
    let (first, others) = (&&_iff (not (is_break c)) (is_line line)).0 h in
    rw (split_lines_step c (line ++ (10 ∷ rest)) first, split_lines-append line rest others)

-- The lines of a text whose last line is empty are read back.
pub split_lines-join_lines :
    (lines : List Text) → All IsLine lines → split_lines (join_lines (lines ++ [] ∷ [])) ≡ lines
unfolding join_lines
split_lines-join_lines [] h = split_lines_nil
split_lines-join_lines (line ∷ []) (hl, h) =
    split_lines-append line [] hl ∙ ap (λ t. line ∷ t) split_lines_nil
split_lines-join_lines (line ∷ next ∷ lines) (hl, h) = rw (
  split_lines-append line (join_lines (next ∷ (lines ++ [] ∷ []))) hl,
  split_lines-join_lines (next ∷ lines) h,
)
