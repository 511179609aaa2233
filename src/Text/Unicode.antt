-- ===== src/Text/Unicode.antt =====
-- The interpreter's Unicode tables, which `str.upper`, `str.lower` and `str.isdecimal` consult.
use relay_x.Prelude.{
  ℕ, ◌+◌, ◌-◌, ◌<◌, ◌≡◌, ◌&&◌, List, map, Option, some, none, leb, if◌then◌else◌, All,
}

abbrev pub IsAscii : List ℕ → Type 0
IsAscii = All (λ c. c < 128)

abbrev pub ascii_upper : ℕ → ℕ
ascii_upper c = if leb b'a' c && leb c b'z' then c - 32 else c

abbrev pub ascii_lower : ℕ → ℕ
ascii_lower c = if leb b'A' c && leb c b'Z' then c + 32 else c

-- `upper` and `lower` are the methods of `str`; `decimal` is the digit value of a code point of
-- the category Nd.
pub record Unicode : Type 0 where
  pub upper : List ℕ → List ℕ
  pub lower : List ℕ → List ℕ
  pub decimal : ℕ → Option ℕ

-- What the tables hold of ASCII.
pub record IsUnicode (u : Unicode) : Type 0 where
  pub upper_ascii : (s : List ℕ) → IsAscii s → u.upper s ≡ map ascii_upper s
  pub lower_ascii : (s : List ℕ) → IsAscii s → u.lower s ≡ map ascii_lower s
  pub decimal_ascii :
      (c : ℕ) → c < 128 → u.decimal c ≡ (if leb b'0' c && leb c b'9' then some (c - 48) else none)
