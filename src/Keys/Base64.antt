-- ===== src/Keys/Base64.antt =====
-- base64.b64encode, and base64.b64decode with validate=True, which is binascii.a2b_base64 in its
-- strict mode; and what secrets.token_urlsafe makes of random bytes.
use relay_x.Prelude.{
  ℕ, ◌+◌, ◌-◌, ◌*◌, ◌/◌, ◌%◌, [], ◌∷◌, Bool, ◌&&◌, ◌==◌, ltb, leb, all, map, Option, some, none,
  if◌then◌else◌,
}
use relay_x.Text.{Text, Bytes}
use relay_x.Text.Split.{rstrip}
use relay_x.Models.{is_empty}

-- The letter of six bits.
unfoldable pub letter : ℕ → ℕ
letter n =
    if ltb n 26
    then 65 + n
    else if ltb n 52
    then 71 + n
    else if ltb n 62
    then n - 4
    else if n == 62
    then b'+'
    else b'/'

-- The six bits of a letter.
unfoldable pub sextet : ℕ → Option ℕ
sextet c =
    if leb b'A' c && leb c b'Z'
    then some (c - 65)
    else if leb b'a' c && leb c b'z'
    then some (c - 71)
    else if leb b'0' c && leb c b'9'
    then some (c + 4)
    else if c == b'+'
    then some 62
    else if c == b'/'
    then some 63
    else none

unfoldable pub b64encode : Bytes → Text
b64encode [] = []
b64encode (a ∷ []) = letter (a / 4) ∷ letter (a % 4 * 16) ∷ b'=' ∷ b'=' ∷ []
b64encode (a ∷ b ∷ []) =
    letter (a / 4) ∷ letter (a % 4 * 16 + b / 16) ∷ letter (b % 16 * 4) ∷ b'=' ∷ []
b64encode (a ∷ b ∷ c ∷ rest) =
    letter (a / 4)
    ∷ letter (a % 4 * 16 + b / 16)
    ∷ letter (b % 16 * 4 + c / 64)
    ∷ letter (c % 64)
    ∷ b64encode rest

infixl 5 ◌>>=◌
abbrev pub ◌>>=◌ : {A B : Type 0} → Option A → (A → Option B) → Option B
none >>= f = none
some a >>= f = f a

-- A group whose third character is no pad.
abbrev pub three : ℕ → ℕ → ℕ → Bool → Option Bytes → Option ℕ → Option Bytes
three x y d is_last more none = none
three x y d is_last more (some z) =
    if d == b'='
    then (if is_last then some ((x * 4 + y / 16) ∷ (y % 16 * 16 + z / 4) ∷ []) else none)
    else (do
      t ← sextet d
      bytes ← more
      some ((x * 4 + y / 16) ∷ (y % 16 * 16 + z / 4) ∷ (z % 4 * 64 + t) ∷ bytes))

-- One group of four characters, and what is decoded behind it. A padded group is the last one; the
-- bits that its letters have to spare are dropped.
unfoldable pub group : ℕ → ℕ → ℕ → ℕ → Bool → Option Bytes → Option Bytes
group a b c d is_last more = do
  x ← sextet a
  y ← sextet b
  if c == b'='
      then (if d == b'=' && is_last then some ((x * 4 + y / 16) ∷ []) else none)
      else three x y d is_last more (sextet c)

abbrev pub is_pad : ℕ → Bool
is_pad c = c == b'='

-- Behind whole groups any number of pads is skipped.
unfoldable pub groups_from : Text → Option Bytes
unfolding group
groups_from [] = some []
groups_from (a ∷ b ∷ c ∷ d ∷ rest) =
    let more = groups_from rest in
    if all is_pad (a ∷ b ∷ c ∷ d ∷ rest) then some [] else group a b c d (is_empty rest) more
groups_from text = if all is_pad text then some [] else none

-- A leading pad is refused, and so is text that is not ASCII: it has no sextets.
unfoldable pub b64decode : Text → Option Bytes
unfolding groups_from
b64decode [] = some []
b64decode (c ∷ s) = if is_pad c then none else groups_from (c ∷ s)

-- urlsafe_b64encode: '-' and '_' for '+' and '/'
abbrev pub urlsafe : ℕ → ℕ
urlsafe c = if c == b'+' then b'-' else if c == b'/' then b'_' else c

-- secrets.token_urlsafe, on the random bytes that it draws
unfoldable pub token_urlsafe : Bytes → Text
unfolding b64encode rstrip
token_urlsafe bytes = rstrip is_pad (map urlsafe (b64encode bytes))
