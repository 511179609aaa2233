-- ===== src/Ops/Template.antt =====
-- About reading back what env_template makes.
use relay_x.Prelude.{
  List, [], ◌∷◌, ◌++◌, map, ◌≡◌, refl, ap, ◌∙◌, true, false, not, All, all_below, some, none,
}
use relay_x.Prelude.Int.{ℤ}
use relay_x.Text.{Text, str}
use relay_x.Text.Equality.{text_eq}
use relay_x.Text.Unicode.{Unicode}
use relay_x.Text.Decimal.{show_int, all-show_int}
use relay_x.Text.Split.{strip, starts_with}
use relay_x.Text.Lines.{is_break, IsLine, join_lines, split_lines}
use relay_x.Models.{is_empty}
use relay_x.Ops.{SecretBundle, env_template}
use relay_x.Ops.EnvFile.{Values, get, read_line, read_lines}
use relay_x.Ops.EnvRoundtrip.{
  is_plain, plain-IsLine, clean, clean_plain, assigned, IsField, line_of, read_lines-join_lines,
}

-- The assignments of the template.
abbrev fields : Text → Text → Text → Text → Text → List (Text × Text)
fields token key host port level =
    (str "RELAYX_AUTH_TOKEN", token)
    ∷ (str "RELAYX_ENCRYPTION_KEY", key)
    ∷ (str "RELAYX_RELAY_URL", str "http://127.0.0.1:8000/relay")
    ∷ (str "RELAYX_PROXY_HOST", str "127.0.0.1")
    ∷ (str "RELAYX_PROXY_PORT", str "8080")
    ∷ (str "RELAYX_SERVER_HOST", host)
    ∷ (str "RELAYX_SERVER_PORT", port)
    ∷ (str "RELAYX_REPLAY_WINDOW_SECONDS", str "300")
    ∷ (str "RELAYX_ALLOWED_CLOCK_SKEW_SECONDS", str "30")
    ∷ (str "RELAYX_REPLAY_CACHE_MAX_ENTRIES", str "1000000")
    ∷ (str "RELAYX_COMPRESSION_ENABLED", str "true")
    ∷ (str "RELAYX_COMPRESSION_THRESHOLD_BYTES", str "1024")
    ∷ (str "RELAYX_MAX_DECOMPRESSED_BYTES", str "134217728")
    ∷ (str "RELAYX_MAX_CARRIER_BODY_BYTES", str "134217728")
    ∷ (str "RELAYX_MAX_REQUEST_BODY_BYTES", str "16777216")
    ∷ (str "RELAYX_MAX_RESPONSE_BODY_BYTES", str "67108864")
    ∷ (str "RELAYX_MAX_HEADER_BYTES", str "65536")
    ∷ (str "RELAYX_TIMEOUT_SECONDS", str "30.0")
    ∷ (str "RELAYX_LOG_LEVEL", level)
    ∷ []

abbrev comment : Text
comment = str "# RelayX production environment file"

template_fields :
    (u : Unicode) (generated : SecretBundle) (host level : Text) (port : ℤ)
    → is_empty generated.auth_token ≡ false
    → is_empty generated.encryption_key ≡ false
    → env_template u generated host port none none level true
      ≡ join_lines (
          (comment
            ∷ map line_of (
                fields generated.auth_token generated.encryption_key host
                  (show_int port)
                  (u.upper level)))
          ++ [] ∷ [])
unfolding env_template
template_fields u generated host level port token key = rw (token, key) refl

fields-AreFields :
    (token key host port level : Text)
    → IsLine token
    → IsLine key
    → IsLine host
    → IsLine port
    → IsLine level
    → All IsField (fields token key host port level)
fields-AreFields token key host port level ht hk hh hp hl = (
  (refl, ht),
  (
    (refl, hk),
    (
      (refl, refl),
      (
        (refl, refl),
        (
          (refl, refl),
          (
            (refl, hh),
            (
              (refl, hp),
              (
                (refl, refl),
                (
                  (refl, refl),
                  (
                    (refl, refl),
                    (
                      (refl, refl),
                      (
                        (refl, refl),
                        (
                          (refl, refl),
                          (
                            (refl, refl),
                            (
                              (refl, refl),
                              ((refl, refl), ((refl, refl), ((refl, refl), ((refl, hl), tt)))),
                            ),
                          ),
                        ),
                      ),
                    ),
                  ),
                ),
              ),
            ),
          ),
        ),
      ),
    ),
  ),
)

show_int-IsLine : (n : ℤ) → IsLine (show_int n)
unfolding all_below
show_int-IsLine n = all-show_int (λ c. not (is_break c)) refl n refl

-- The two secrets are what the assignments leave under their names.
secrets_assigned :
    (token key host port level : Text)
    → (get (str "RELAYX_AUTH_TOKEN") (assigned (fields token key host port level) [])
        ≡ some (clean token))
      × (get (str "RELAYX_ENCRYPTION_KEY") (assigned (fields token key host port level) [])
          ≡ some (clean key))
unfolding assigned get text_eq
secrets_assigned token key host port level = (refl, refl)

comment-none : read_line comment ≡ none
unfolding read_line strip starts_with
comment-none = refl

-- The values that the template is read back to.
abbrev pub read_back : Text → Values
read_back content = read_lines (split_lines content) []

pub env_template_secrets :
    (u : Unicode) (generated : SecretBundle) (host level : Text) (port : ℤ)
    → is_empty generated.auth_token ≡ false
    → is_empty generated.encryption_key ≡ false
    → is_plain generated.auth_token ≡ true
    → is_plain generated.encryption_key ≡ true
    → IsLine host
    → IsLine (u.upper level)
    → (get
          (str "RELAYX_AUTH_TOKEN")
          (read_back (env_template u generated host port none none level true))
        ≡ some generated.auth_token)
      × (get
            (str "RELAYX_ENCRYPTION_KEY")
            (read_back (env_template u generated host port none none level true))
          ≡ some generated.encryption_key)
env_template_secrets u generated host level port full full' token key hh hl =
    let (t, k) =
      secrets_assigned generated.auth_token generated.encryption_key host (show_int port)
        (u.upper level) in
    let back =
      ap read_back (template_fields u generated host level port full full')
      ∙ read_lines-join_lines comment
          (fields generated.auth_token generated.encryption_key host (show_int port)
            (u.upper level))
          refl comment-none
          (fields-AreFields generated.auth_token generated.encryption_key host (show_int port)
            (u.upper level) (plain-IsLine generated.auth_token token)
            (plain-IsLine generated.encryption_key key) hh (show_int-IsLine port) hl) in
    (
      ap (get (str "RELAYX_AUTH_TOKEN")) back
          ∙ t
          ∙ ap some (clean_plain generated.auth_token token),
      ap (get (str "RELAYX_ENCRYPTION_KEY")) back
          ∙ k
          ∙ ap some (clean_plain generated.encryption_key key),
    )
