-- ===== src/Ops/EnvFile.antt =====
-- relayx/ops.py: writing an environment file, and reading one.
use relay_x.Ops.Paths.{ancestors}
use relay_x.Prelude.{
  ℕ, List, [], ◌∷◌, Bool, not, ◌&&◌, ◌||◌, ◌==◌, Option, some, none, if◌then◌else◌,
}
use relay_x.Text.{Text, str}
use relay_x.Text.Equality.{text_eq}
use relay_x.Text.Split.{starts_with, cut, strip, strip_chars}
use relay_x.Text.Lines.{split_lines}
use relay_x.Errors.{Result, ok, err, raise_if, file_exists, os_error}
use relay_x.Models.{is_empty}
use relay_x.Ops.Machine.{
  Entry, directory, file, World, M, ◌>>=◌, ◌>>◌, lift, lookup, exists, make_directories, write_text,
  chmod,
}

-- 0o600
abbrev pub private_mode : ℕ
private_mode = 384

unfoldable pub write_env_file : World → Text → Text → Bool → M (Unit {0})
write_env_file w path content overwrite = do
  found ← exists path
  lift (raise_if (found && not overwrite) file_exists)
  make_directories w (ancestors path)
  write_text w path content
  chmod w path private_mode

-- The dict of _read_env_values, the latest value of a key in front of its earlier ones.
abbrev pub Values : Type 0
Values = List (Text × Text)

-- values.get(key)
unfoldable pub get : Text → Values → Option Text
get key [] = none
get key ((k, value) ∷ values) =
    let rest = get key values in if text_eq k key then some value else rest

-- the quotes that strip("'\"") removes
abbrev pub is_quote : ℕ → Bool
is_quote c = c == 39 || c == 34

abbrev pub field_of : Option (Text × Text) → Option (Text × Text)
field_of none = none
field_of (some (key, value)) = some (strip key, strip_chars is_quote (strip value))

-- What one line sets.
unfoldable pub read_line : Text → Option (Text × Text)
read_line text =
    let line = strip text in
    if is_empty line || starts_with (str "#") line then none else field_of (cut b'=' line)

unfoldable pub read_lines : List Text → Values → Values
read_lines [] values = values
read_lines (line ∷ lines) values = elim (read_line line) [
  | none ↦ read_lines lines values
  | some field ↦ read_lines lines (field ∷ values)
]

abbrev pub values_of : Option Entry → Result Values
values_of none = ok []
values_of (some directory) = err os_error
values_of (some (file content mode)) = ok (read_lines (split_lines content) [])

unfoldable pub read_env_values : Option Text → M Values
read_env_values none s = (ok [], s)
read_env_values (some path) s = (values_of (lookup path s), s)
