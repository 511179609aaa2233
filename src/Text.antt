-- ===== src/Text.antt =====
-- Python's `str` and `bytes`, and the string methods that the program calls.
pub mod Equality
pub mod Unicode
pub mod Split
pub mod Decimal
pub mod Number
pub mod Lines
pub mod Strip
use Prim.Native.Char.{code}
use Prim.Native.String.{String}
use relay_x.Prelude.{ℕ, List, [], ◌∷◌}

-- A `str` is the list of its code points.
abbrev pub Text : Type 0
Text = List ℕ

-- A `bytes` or `bytearray` is the list of its bytes.
abbrev pub Bytes : Type 0
Bytes = List ℕ

-- A literal of the source.
abbrev pub str : String → Text
str String.[] = []
str (String.◌∷◌ c s) = code c ∷ str s
