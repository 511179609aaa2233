-- ===== src/Headers.antt =====
-- relayx/http/headers.py: the headers that may be forwarded.
pub mod Clean
pub mod Exact
pub mod Tokens
mod Tests
use relay_x.Prelude.{ℕ, List, [], ◌∷◌, ◌++◌, Bool, ◌||◌, not, filter, if◌then◌else◌, map}
use relay_x.Text.{Text, str}
use relay_x.Text.Equality.{text_eq, one_of}
use relay_x.Text.Unicode.{Unicode}
use relay_x.Text.Split.{split, strip}
use relay_x.Constants.{hop_by_hop_headers, proxy_only_headers}
use relay_x.Models.{HeaderList, is_empty}

module _ (u : Unicode) where
  -- token.strip().lower() for token in value.split(",") if token.strip()
  unfoldable pub option_tokens : Text → List Text
  option_tokens value =
      map (λ t. u.lower (strip t)) (filter (λ t. not (is_empty (strip t))) (split b',' value))

  -- the loop that collects connection_tokens
  unfoldable pub connection_tokens : HeaderList → List Text
  connection_tokens [] = []
  connection_tokens ((name, value) ∷ rest) =
      let more = connection_tokens rest in
      if text_eq (u.lower name) (str "connection") then option_tokens value ++ more else more

  -- name.lower() in blocked
  unfoldable pub is_blocked : List Text → Text × Text → Bool
  is_blocked tokens header =
      one_of (u.lower header.0) hop_by_hop_headers
      || (one_of (u.lower header.0) proxy_only_headers || one_of (u.lower header.0) tokens)

  unfoldable pub filter_forward_headers : HeaderList → HeaderList
  filter_forward_headers headers =
      filter (λ h. not (is_blocked (connection_tokens headers) h)) headers
