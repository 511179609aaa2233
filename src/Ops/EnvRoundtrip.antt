-- ===== src/Ops/EnvRoundtrip.antt =====
-- About reading assignments back from an environment file.
use relay_x.Prelude.{
  ℕ, List, [], ◌∷◌, ◌++◌, map, ◌≡◌, refl, ap, ◌∙◌, Bool, true, false, not, ◌&&◌, ◌==◌, All, all,
  all_mono, all-append, &&_iff, some, none, arith, false_of_not,
}
use relay_x.Text.{Text, str}
use relay_x.Text.Split.{starts_with, cut, strip, strip_chars, lstrip, rstrip, is_space}
use relay_x.Text.Lines.{is_break, IsLine, split_lines, join_lines, split_lines-join_lines}
use relay_x.Text.Strip.{rstrip_behind, rstrip_id, lstrip_kept, strip_chars_id}
use relay_x.Models.{is_empty}
use relay_x.Ops.EnvFile.{Values, is_quote, read_line, read_lines}

-- A character of a variable's name.
abbrev pub is_key_char : ℕ → Bool
is_key_char c = not (is_space c) && (not (is_break c) && (not (c == b'=') && not (c == b'#')))

-- A name that may stand in front of '='.
abbrev pub is_key : Text → Bool
is_key name = not (is_empty name) && all is_key_char name

-- A character that reading a value leaves alone.
abbrev pub is_plain_char : ℕ → Bool
is_plain_char c = not (is_space c) && (not (is_break c) && not (is_quote c))

abbrev pub is_plain : Text → Bool
is_plain = all is_plain_char

-- NAME=value
abbrev pub assign : Text → Text → Text
assign name value = name ++ (b'=' ∷ value)

-- What reading does to a value.
unfoldable pub clean : Text → Text
unfolding strip strip_chars rstrip lstrip
clean value = strip_chars is_quote (strip (rstrip is_space value))

key_char_lem :
    (c : ℕ)
    → is_key_char c ≡ true
    → (not (is_space c) ≡ true)
      × (not (is_break c) ≡ true)
      × ((c == b'=') ≡ false)
      × ((b'#' == c) ≡ false)
key_char_lem c h =
    let (a, r) = (&&_iff (not (is_space c)) _).0 h in
    let (b, r') = (&&_iff (not (is_break c)) _).0 r in
    let (d, e) = (&&_iff (not (c == b'=')) (not (c == b'#'))).0 r' in
    (a, b, ground arith, ground arith)

key-no_space : (name : Text) → all is_key_char name ≡ true → all (λ c. not (is_space c)) name ≡ true
key-no_space name h =
    all_mono is_key_char (λ c. not (is_space c)) name (λ c k. (key_char_lem c k).0) h

key-IsLine : (name : Text) → all is_key_char name ≡ true → IsLine name
key-IsLine name h =
    all_mono is_key_char (λ c. not (is_break c)) name (λ c k. (key_char_lem c k).1) h

starts_hash : (c : ℕ) (s : Text) → (b'#' == c) ≡ false → starts_with (str "#") (c ∷ s) ≡ false
unfolding starts_with
starts_hash c s h = rw h

cut-assign :
    (name value : Text)
    → all is_key_char name ≡ true
    → cut b'=' (assign name value) ≡ some (name, value)
unfolding cut
cut-assign [] value h = refl
cut-assign (c ∷ name) value h =
    let (first, others) = (&&_iff (is_key_char c) (all is_key_char name)).0 h in
    rw ((key_char_lem c first).2, cut-assign name value others) refl

strip-assign :
    (c : ℕ) (name value : Text)
    → all is_key_char (c ∷ name) ≡ true
    → strip (assign (c ∷ name) value) ≡ assign (c ∷ name) (rstrip is_space value)
unfolding strip strip_chars
strip-assign c name value h =
    let spaceless = key-no_space (c ∷ name) h in
    let (first, others) =
      (&&_iff (not (is_space c)) (all (λ x. not (is_space x)) name)).0 spaceless in
    rw (lstrip_kept is_space c (assign name value) (false_of_not (is_space c) first))
      (rstrip_behind is_space (c ∷ name) b'=' value refl spaceless)

-- The line of an assignment sets the name to the value as cleaned.
pub read_line-assign :
    (name value : Text)
    → is_key name ≡ true
    → read_line (assign name value) ≡ some (name, clean value)
unfolding read_line clean
read_line-assign [] value h = cc
read_line-assign (c ∷ name) value h =
    let (hash, _) = (&&_iff (is_key_char c) (all is_key_char name)).0 h in
    rw (strip-assign c name value h) (
      rw (starts_hash c (assign name (rstrip is_space value)) (key_char_lem c hash).3) (
        rw (cut-assign (c ∷ name) (rstrip is_space value) h)
          (rw (strip_chars_id is_space (c ∷ name) (key-no_space (c ∷ name) h)) refl)))

-- The values that assignments leave, on top of the earlier ones.
unfoldable pub assigned : List (Text × Text) → Values → Values
assigned [] values = values
assigned ((name, value) ∷ fields) values = assigned fields ((name, clean value) ∷ values)

-- A name and a value that fit into one line.
abbrev pub IsField : Text × Text → Type 0
IsField field = (is_key field.0 ≡ true) × IsLine field.1

abbrev pub line_of : Text × Text → Text
line_of field = assign field.0 field.1

read_lines_step :
    (line : Text) (lines : List Text) (values : Values) {field : Text × Text}
    → read_line line ≡ some field
    → read_lines (line ∷ lines) values ≡ read_lines lines (field ∷ values)
unfolding read_lines
read_lines_step line lines values e = rw (e, read_lines)

read_lines_skip :
    (line : Text) (lines : List Text) (values : Values)
    → read_line line ≡ none
    → read_lines (line ∷ lines) values ≡ read_lines lines values
unfolding read_lines
read_lines_skip line lines values e = rw (e, read_lines)

read_lines_nil : (values : Values) → read_lines [] values ≡ values
unfolding read_lines
read_lines_nil values = refl

pub read_lines-assign :
    (fields : List (Text × Text)) (values : Values)
    → All IsField fields
    → read_lines (map line_of fields) values ≡ assigned fields values
unfolding assigned
read_lines-assign [] values h = read_lines_nil values
read_lines-assign ((name, value) ∷ fields) values (h, hs) =
    read_lines_step (assign name value) (map line_of fields) values
      (read_line-assign name value h.0)
    ∙ read_lines-assign fields ((name, clean value) ∷ values) hs

assign-IsLine : (field : Text × Text) → IsField field → IsLine (line_of field)
assign-IsLine (name, value) h =
    let keys = (&&_iff (not (is_empty name)) (all is_key_char name)).0 h.0 in
    all-append (λ c. not (is_break c)) name (b'=' ∷ value) (key-IsLine name keys.1) h.1

lines_of-AreLines :
    (fields : List (Text × Text)) → All IsField fields → All IsLine (map line_of fields)
lines_of-AreLines [] h = tt
lines_of-AreLines (field ∷ fields) (h, hs) = (assign-IsLine field h, lines_of-AreLines fields hs)

-- A file of a comment and assignments is read back.
pub read_lines-join_lines :
    (comment : Text) (fields : List (Text × Text))
    → IsLine comment
    → read_line comment ≡ none
    → All IsField fields
    → read_lines (split_lines (join_lines ((comment ∷ map line_of fields) ++ [] ∷ []))) []
      ≡ assigned fields []
read_lines-join_lines comment fields hc none_set h =
    ap (λ lines. read_lines lines [])
      (split_lines-join_lines (comment ∷ map line_of fields) (hc, lines_of-AreLines fields h))
    ∙ read_lines_skip comment (map line_of fields) [] none_set
    ∙ read_lines-assign fields [] h

strip_id : (s : Text) → all (λ c. not (is_space c)) s ≡ true → strip s ≡ s
unfolding strip
strip_id s h = strip_chars_id is_space s h

plain_char_lem :
    (c : ℕ)
    → is_plain_char c ≡ true
    → (not (is_space c) ≡ true) × (not (is_break c) ≡ true) × (not (is_quote c) ≡ true)
plain_char_lem c h =
    let (a, r) = (&&_iff (not (is_space c)) _).0 h in
    let (b, d) = (&&_iff (not (is_break c)) (not (is_quote c))).0 r in (a, b, d)

pub plain-IsLine : (value : Text) → is_plain value ≡ true → IsLine value
plain-IsLine value h =
    all_mono is_plain_char (λ c. not (is_break c)) value (λ c k. (plain_char_lem c k).1) h

-- Plain text is a clean value.
pub clean_plain : (value : Text) → is_plain value ≡ true → clean value ≡ value
unfolding clean
clean_plain value h =
    let spaceless =
      all_mono is_plain_char (λ c. not (is_space c)) value (λ c k. (plain_char_lem c k).0) h in
    let bare =
      all_mono is_plain_char (λ c. not (is_quote c)) value (λ c k. (plain_char_lem c k).2) h in
    rw (rstrip_id is_space value spaceless)
      (rw (strip_id value spaceless) (strip_chars_id is_quote value bare))
