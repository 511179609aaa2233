-- ===== src/Cli/Show.antt =====
-- About what `config show` prints of the secrets.
use relay_x.Prelude.{ℕ, ◌≡◌, refl}
use relay_x.Text.{Text}
use relay_x.Text.Unicode.{Unicode}
use relay_x.Text.Split.{has_text}
use relay_x.Config.{RelaySettings}
use relay_x.Cli.{show_lines}

-- Whatever the secrets are, `config show` prints the same lines.
pub show_lines_hides :
    (u : Unicode) (float_repr : ℕ → Text) (s : RelaySettings) (token key : Text)
    → show_lines u float_repr (record s { auth_token = token; encryption_key = key })
      ≡ show_lines u float_repr s
unfolding show_lines has_text
show_lines_hides u float_repr s token key = refl
