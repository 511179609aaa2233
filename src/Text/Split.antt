-- ===== src/Text/Split.antt =====
-- Searching and splitting.
use relay_x.Prelude.{
  ℕ, List, [], ◌∷◌, Bool, true, false, ◌&&◌, ◌||◌, ◌==◌, any, if◌then◌else◌, Option, some, none,
}

-- ch in s
abbrev pub has_char : ℕ → List ℕ → Bool
has_char c = any (λ d. c == d)

-- s.startswith(prefix)
unfoldable pub starts_with : List ℕ → List ℕ → Bool
starts_with [] s = true
starts_with (p ∷ ps) [] = false
starts_with (p ∷ ps) (c ∷ s) = p == c && starts_with ps s

-- needle in s
unfoldable pub has_text : List ℕ → List ℕ → Bool
unfolding starts_with
has_text needle [] = starts_with needle []
has_text needle (c ∷ s) = starts_with needle (c ∷ s) || has_text needle s

-- s.split(c, 1) of a text that has c: what stands before the first c, and what stands behind it.
unfoldable pub cut : ℕ → List ℕ → Option (List ℕ × List ℕ)
cut c [] = none
cut c (d ∷ s) =
    let rest = cut c s in
    if d == c then some ([], s) else elim rest [ none ↦ none | some (a, b) ↦ some (d ∷ a, b) ]

-- s.split(c), as the first piece and the others.
unfoldable pub split_at : ℕ → List ℕ → List ℕ × List (List ℕ)
split_at c [] = ([], [])
split_at c (d ∷ s) =
    let (first, others) = split_at c s in
    if d == c then ([], first ∷ others) else (d ∷ first, others)

abbrev pub split : ℕ → List ℕ → List (List ℕ)
split c s = let (first, others) = split_at c s in first ∷ others

-- s.lstrip(chars), where `p` says what is in chars
unfoldable pub lstrip : (ℕ → Bool) → List ℕ → List ℕ
lstrip p [] = []
lstrip p (c ∷ s) = let rest = lstrip p s in if p c then rest else c ∷ s

-- s.rstrip(chars)
unfoldable pub rstrip : (ℕ → Bool) → List ℕ → List ℕ
rstrip p [] = []
rstrip p (c ∷ s) =
    let rest = rstrip p s in elim rest [ [] ↦ if p c then [] else c ∷ [] | d ∷ t ↦ c ∷ d ∷ t ]

unfoldable pub strip_chars : (ℕ → Bool) → List ℕ → List ℕ
unfolding lstrip rstrip
strip_chars p s = rstrip p (lstrip p s)

-- The characters that `str.strip()` removes: those with `str.isspace()`.
abbrev pub is_space : ℕ → Bool
is_space c = has_char c (
    9 ∷ 10 ∷ 11 ∷ 12 ∷ 13 ∷ 28 ∷ 29 ∷ 30 ∷ 31 ∷ 32 ∷ 0x85 ∷ 0xa0 ∷ 0x1680 ∷ 0x2000 ∷ 0x2001 ∷ 0x2002
    ∷ 0x2003 ∷ 0x2004 ∷ 0x2005 ∷ 0x2006 ∷ 0x2007 ∷ 0x2008 ∷ 0x2009 ∷ 0x200a ∷ 0x2028 ∷ 0x2029
    ∷ 0x202f ∷ 0x205f ∷ 0x3000 ∷ [])

-- s.strip()
unfoldable pub strip : List ℕ → List ℕ
unfolding strip_chars
strip s = strip_chars is_space s
