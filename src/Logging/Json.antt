-- ===== src/Logging/Json.antt =====
-- A dict of JSON values, and json.dumps of it with separators=(",", ":") and sort_keys=True.
use relay_x.Prelude.{
  ℕ, ◌+◌, ◌-◌, ◌/◌, ◌%◌, List, [], ◌∷◌, ◌++◌, Bool, true, false, ◌&&◌, ◌||◌, ◌==◌, ltb, leb,
  if◌then◌else◌,
}
use relay_x.Prelude.Int.{ℤ}
use relay_x.Text.{Text, str}
use relay_x.Text.Equality.{text_eq}
use relay_x.Text.Decimal.{show_int}

-- A float by its bits.
pub data Value : Type 0 where
  string : Text → Value
  integer : ℤ → Value
  float : ℕ → Value
  boolean : Bool → Value
  null : Value

abbrev pub Dict : Type 0
Dict = List (Text × Value)

-- items[key] = value
unfoldable pub update_item : Text → Value → Dict → Dict
update_item key value [] = (key, value) ∷ []
update_item key value ((k, v) ∷ items) =
    let rest = update_item key value items in
    if text_eq k key then (k, value) ∷ items else (k, v) ∷ rest

-- A hexadecimal digit.
unfoldable pub hex_digit : ℕ → ℕ
hex_digit n = if ltb n 10 then 48 + n else 87 + n

abbrev pub unicode_escape : ℕ → Text
unicode_escape c =
    b'\\'
    ∷ b'u'
    ∷ hex_digit (c / 4096 % 16)
    ∷ hex_digit (c / 256 % 16)
    ∷ hex_digit (c / 16 % 16)
    ∷ hex_digit (c % 16)
    ∷ []

-- One character of a string: printable ASCII as it is, others escaped, those above 0xffff by their
-- surrogates.
unfoldable pub escape : ℕ → Text
escape c =
    if c == b'"'
    then b'\\' ∷ b'"' ∷ []
    else if c == b'\\'
    then b'\\' ∷ b'\\' ∷ []
    else if leb 32 c && leb c 126
    then c ∷ []
    else if c == 10
    then b'\\' ∷ b'n' ∷ []
    else if c == 13
    then b'\\' ∷ b'r' ∷ []
    else if c == 9
    then b'\\' ∷ b't' ∷ []
    else if c == 12
    then b'\\' ∷ b'f' ∷ []
    else if c == 8
    then b'\\' ∷ b'b' ∷ []
    else if ltb c 65536
    then unicode_escape c
    else unicode_escape (55296 + (c - 65536) / 1024 % 1024)
      ++ unicode_escape (56320 + (c - 65536) % 1024)

unfoldable pub escape_all : Text → Text
unfolding escape hex_digit
escape_all [] = []
escape_all (c ∷ s) = escape c ++ escape_all s

abbrev pub quoted : Text → Text
quoted s = b'"' ∷ (escape_all s ++ b'"' ∷ [])

-- Python's order of `str`, by code points.
unfoldable pub text_le : Text → Text → Bool
text_le [] t = true
text_le (a ∷ s) [] = false
text_le (a ∷ s) (b ∷ t) = ltb a b || (a == b && text_le s t)

unfoldable pub insert_item : Text × Value → Dict → Dict
insert_item item [] = item ∷ []
insert_item item (other ∷ items) =
    let rest = insert_item item items in
    if text_le item.0 other.0 then item ∷ other ∷ items else other ∷ rest

-- sorted(items)
unfoldable pub sort_items : Dict → Dict
sort_items [] = []
sort_items (item ∷ items) = insert_item item (sort_items items)

module _ (float_repr : ℕ → Text) where
  unfoldable pub dump_value : Value → Text
  dump_value (string s) = quoted s
  dump_value (integer n) = show_int n
  dump_value (float bits) = float_repr bits
  dump_value (boolean true) = str "true"
  dump_value (boolean false) = str "false"
  dump_value null = str "null"

  abbrev pub dump_item : Text × Value → Text
  dump_item item = quoted item.0 ++ (b':' ∷ dump_value item.1)

  unfoldable pub dump_items : Dict → Text
  dump_items [] = []
  dump_items (item ∷ []) = dump_item item
  dump_items (item ∷ next ∷ items) = dump_item item ++ (b',' ∷ dump_items (next ∷ items))

  -- json.dumps(items, separators=(",", ":"), sort_keys=True)
  unfoldable pub dumps : Dict → Text
  dumps items = b'{' ∷ (dump_items (sort_items items) ++ b'}' ∷ [])
