-- ===== src/Text/Number.antt =====
-- Python's `int(text)` and `str.isdecimal()`.
use relay_x.Prelude.{
  ℕ, ◌+◌, ◌*◌, [], ◌∷◌, Bool, true, false, ◌&&◌, ◌||◌, ◌==◌, ltb, leb, all, Option, some, none,
  if◌then◌else◌,
}
use relay_x.Prelude.Int.{ℤ, pos, sub_ℕ}
use relay_x.Text.{Text}
use relay_x.Text.Unicode.{Unicode}
use relay_x.Text.Split.{is_space, strip_chars}
use relay_x.Errors.{Result, ok, err, ◌>>=◌, value_error}

-- What `int` skips on both sides: in ASCII text C's isspace, in other text str.isspace.
abbrev pub is_int_space : Text → ℕ → Bool
is_int_space text c =
    if all (λ d. ltb d 128) text then c == 32 || (leb 9 c && leb c 13) else is_space c

-- The most digits that `int` reads.
abbrev pub max_digits : ℕ
max_digits = 4300

module _ (u : Unicode) where
  -- The digits so far, their number, and whether the last character was one.
  unfoldable pub digits_from : ℕ → ℕ → Bool → Text → Option (ℕ × ℕ)
  digits_from n count after_digit [] = if after_digit then some (n, count) else none
  digits_from n count after_digit (c ∷ s) =
      let under = digits_from n count false s in
      elim (u.decimal c) [
        | some d ↦ digits_from (n * 10 + d) (count + 1) true s
        | none ↦ if c == b'_' && after_digit then under else none
      ]

  unfoldable pub magnitude : Text → Result ℕ
  magnitude s = elim (digits_from 0 0 false s) [
    | none ↦ err value_error
    | some (n, count) ↦ if ltb max_digits count then err value_error else ok n
  ]

  abbrev pub signed : Text → Result ℤ
  signed [] = err value_error
  signed (c ∷ s) =
      if c == b'-'
      then (do n ← magnitude s; ok (sub_ℕ 0 n))
      else if c == b'+'
      then (do n ← magnitude s; ok (pos n))
      else (do n ← magnitude (c ∷ s); ok (pos n))

  -- int(text)
  unfoldable pub parse_int : Text → Result ℤ
  parse_int text = signed (strip_chars (is_int_space text) text)

  abbrev pub is_decimal_char : ℕ → Bool
  is_decimal_char c = elim (u.decimal c) [ some d ↦ true | none ↦ false ]

  -- text.isdecimal()
  unfoldable pub is_decimal : Text → Bool
  is_decimal [] = false
  is_decimal (c ∷ s) = all is_decimal_char (c ∷ s)
