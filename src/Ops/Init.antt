-- ===== src/Ops/Init.antt =====
-- About the file that `relayx init` writes, and reading it.
use relay_x.Prelude.{
  ◌<◌, [], ◌∷◌, ◌≡◌, refl, ap, Bool, true, false, All, all_below, Option, some, none, length, arith,
}
use relay_x.Prelude.Int.{ℤ}
use relay_x.Text.{Text, Bytes, str}
use relay_x.Text.Unicode.{Unicode}
use relay_x.Text.Lines.{IsLine}
use relay_x.Errors.{ok}
use relay_x.Models.{is_empty}
use relay_x.Keys.{decode_encryption_key}
use relay_x.Keys.Base64.{letter, urlsafe, b64encode, token_urlsafe}
use relay_x.Keys.Plain.{
  Accepts, all-b64encode, all-token_urlsafe, is_empty-b64encode, is_empty-token_urlsafe,
}
use relay_x.Keys.Roundtrip.{decode_encryption_key-b64encode}
use relay_x.Ops.{generate_secrets, env_template}
use relay_x.Ops.Machine.{Entry, Machine, World}
use relay_x.Ops.WriteEnv.{write_env_file_written}
use relay_x.Ops.Template.{read_back, env_template_secrets}
use relay_x.Ops.EnvFile.{Values, values_of, get, read_env_values, write_env_file}
use relay_x.Ops.EnvRoundtrip.{is_plain, is_plain_char}

letters_plain : Accepts is_plain_char
unfolding all_below letter
letters_plain = record { letters = refl; pad = refl }

urlsafe_plain : Accepts (λ c. is_plain_char (urlsafe c))
unfolding all_below letter
urlsafe_plain = record { letters = refl; pad = refl }

-- The secrets of `generate_secrets`.
generated_plain :
    (token_bytes key_bytes : Bytes)
    → All (λ b. b < 256) token_bytes
    → All (λ b. b < 256) key_bytes
    → (is_plain (token_urlsafe token_bytes) ≡ true) × (is_plain (b64encode key_bytes) ≡ true)
generated_plain token_bytes key_bytes ht hk = (
  all-token_urlsafe is_plain_char token_bytes urlsafe_plain ht,
  all-b64encode is_plain_char letters_plain key_bytes hk,
)

generated_full :
    (token_bytes key_bytes : Bytes)
    → All (λ b. b < 256) token_bytes
    → length token_bytes ≡ 48
    → length key_bytes ≡ 32
    → (is_empty (token_urlsafe token_bytes) ≡ false) × (is_empty (b64encode key_bytes) ≡ false)
generated_full [] key_bytes ht st sk = absurd (omega (arith, st))
generated_full (b ∷ token_bytes) [] ht st sk = absurd (omega (arith, sk))
generated_full (b ∷ token_bytes) (k ∷ key_bytes) ht st sk =
    (is_empty-token_urlsafe b token_bytes ht.0, is_empty-b64encode k key_bytes)

-- The template with generated secrets.
abbrev pub init_content : Unicode → Bytes → Bytes → Text → ℤ → Text → Text
init_content u token_bytes key_bytes host port level =
    env_template u (generate_secrets token_bytes key_bytes) host port none none level true

-- If write_env_file returns for the template with secrets generated of 48 and 32 random bytes, and
-- the server's host and the upper-cased log level contain no line break, then _read_env_values
-- reads the file back with exactly the two generated secrets under their names, and
-- decode_encryption_key makes the 32 random bytes of the key that was read.
pub read_env_values-write_env_file :
    (w : World) (u : Unicode) (path host level : Text) (port : ℤ) (overwrite : Bool)
    (token_bytes key_bytes : Bytes) (s t : Machine)
    → All (λ b. b < 256) token_bytes
    → All (λ b. b < 256) key_bytes
    → length token_bytes ≡ 48
    → length key_bytes ≡ 32
    → IsLine host
    → IsLine (u.upper level)
    → write_env_file w path (init_content u token_bytes key_bytes host port level) overwrite s
      ≡ (ok tt, t)
    → (values : Values) × (read_env_values (some path) t ≡ (ok values, t))
      × (get (str "RELAYX_AUTH_TOKEN") values ≡ some (token_urlsafe token_bytes))
      × (get (str "RELAYX_ENCRYPTION_KEY") values ≡ some (b64encode key_bytes))
      × (decode_encryption_key (b64encode key_bytes) ≡ ok key_bytes)
unfolding read_env_values generate_secrets
read_env_values-write_env_file w u path host level port overwrite token_bytes key_bytes s t ht hk st
      sk hh hl written =
    let content = init_content u token_bytes key_bytes host port level in
    let at = write_env_file_written w path content overwrite s t written in
    let (plain, plain') = generated_plain token_bytes key_bytes ht hk in
    let (full, full') = generated_full token_bytes key_bytes ht st sk in
    let (token, key) =
      env_template_secrets u (generate_secrets token_bytes key_bytes) host level port full full'
        plain plain' hh hl in
    (
      read_back content,
      ap (λ (e : Option Entry). (values_of e, t)) at,
      token,
      key,
      decode_encryption_key-b64encode key_bytes hk sk,
    )
