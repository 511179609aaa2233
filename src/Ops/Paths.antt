-- ===== src/Ops/Paths.antt =====
-- The paths of relayx/ops.py and relayx/cli.py, as the texts that str(Path(...)) gives: how pathlib
-- takes them apart and together, and what they lead to from the working directory. ".." leads to the
-- directory above, also where the part before it is missing, for which the operating system would
-- fail. There are no symbolic links.
use relay_x.Prelude.{List, [], ◌∷◌, ◌++◌, Bool, not, ◌&&◌, drop, ◌||◌, ◌==◌, if◌then◌else◌}
use relay_x.Text.{Text, str}
use relay_x.Text.Equality.{text_eq, one_of}
use relay_x.Text.Split.{split, starts_with}
use relay_x.Models.{is_empty}

-- One more part of a path, where the last part of what is before it stands first.
abbrev pub step : Text → List Text → List Text
step part parts =
    if is_empty part || text_eq part (str ".")
    then parts
    else if text_eq part (str "..")
    then drop 1 parts
    else part ∷ parts

unfoldable pub resolve : List Text → List Text → List Text
resolve [] parts = parts
resolve (part ∷ others) parts = resolve others (step part parts)

unfoldable pub show_parts : List Text → Text → Text
show_parts [] shown = shown
show_parts (part ∷ parts) shown = show_parts parts (b'/' ∷ (part ++ shown))

-- The absolute path of what a path names, without ".", ".." and empty parts.
unfoldable pub absolute : Text → Text → Text
unfolding resolve show_parts starts_with
absolute cwd path =
    let from = if starts_with (str "/") path then path else cwd ++ (b'/' ∷ path) in
    let shown = show_parts (resolve (split b'/' from) []) [] in
    if is_empty shown then str "/" else shown

-- The directories above a path, from the top.
unfoldable pub ancestors_from : Text → Text → List Text
ancestors_from seen [] = []
ancestors_from seen (c ∷ rest) =
    let others = ancestors_from (seen ++ c ∷ []) rest in
    if c == b'/' then (if is_empty seen then str "/" else seen) ∷ others else others

unfoldable pub ancestors : Text → List Text
unfolding starts_with ancestors_from
ancestors path =
    if starts_with (str "/") path then ancestors_from [] path else str "." ∷ ancestors_from [] path

-- dir / name, for a name without a slash
unfoldable pub join_path : Text → Text → Text
join_path dir name =
    if text_eq dir (str ".")
    then name
    else if text_eq dir (str "/")
    then dir ++ name
    else dir ++ (b'/' ∷ name)

-- What lies below a directory, both by absolute paths.
unfoldable pub is_below : Text → Text → Bool
is_below dir path =
    not (text_eq path dir)
    && starts_with (if text_eq dir (str "/") then dir else dir ++ b'/' ∷ []) path

abbrev pub last_part : List Text → Text
last_part [] = []
last_part (part ∷ parts) =
    let rest = last_part parts in elim parts [ [] ↦ part | other ∷ others ↦ rest ]

-- os.rmdir refuses a path that ends in "." or "..", and the root.
unfoldable pub is_fixed : Text → Bool
is_fixed path = one_of (last_part (split b'/' path)) (str "." ∷ str ".." ∷ [] ∷ [])
