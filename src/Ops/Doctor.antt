-- ===== src/Ops/Doctor.antt =====
-- relayx/ops.py: the diagnostics, and the versions.
-- What Python, its packages and the environment say are arguments, and so is what pydantic makes of
-- an environment file.
use relay_x.Prelude.{
  List, [], ◌∷◌, ◌++◌, Bool, true, false, not, leb, length, Option, some, none, if◌then◌else◌,
}
use relay_x.Text.{Text, Bytes, str}
use relay_x.Text.Lines.{split_lines, join_lines}
use relay_x.Errors.{Result, ok, err, foreign}
use relay_x.Models.{is_empty}
use relay_x.Config.{RelaySettings}
use relay_x.Keys.{decode_encryption_key}
use relay_x.Ops.{text_or}
use relay_x.Ops.Machine.{Machine, World, M, ◌>>=◌, lift, pure}
use relay_x.Ops.EnvFile.{Values, get, read_env_values}

pub record Platform : Type 0 where
  pub python_is_new : Bool
  pub python_version : Text
  pub openssl_version : Text
  pub platform : Text
  pub relayx_version : Text
  pub package_version : Text → Option Text
  pub environ : Text → Option Text
  pub cwd : Text
  pub cwd_is_writable : Bool
  -- What `git rev-parse --short HEAD` prints, stripped, if it succeeds.
  pub git_commit : Option Text
  -- RelaySettings(_env_file=...): the settings, or the text of the exception.
  pub load_settings : Option Text → Machine → Option RelaySettings × Text
  -- str of the exception that decode_encryption_key raises
  pub key_message : Text → Text

abbrev pub verdict : Option RelaySettings × Text → Bool × Text
verdict (none, message) = (false, message)
verdict (some settings, message) = (true, str "configuration is valid")

-- validate_settings
unfoldable pub validate_file : Platform → Option Text → M (Bool × Text)
validate_file p env_file s = (ok (verdict (p.load_settings env_file s)), s)

-- A line of the report: the status, the name and the detail.
pub record Check : Type 0 where
  pub status : Text
  pub name : Text
  pub detail : Text

abbrev pub check : Text → Text → Text → Check
check status name detail = record { status = status; name = name; detail = detail }

abbrev pub pass_or : Bool → Text → Text
pass_or true other = str "PASS"
pass_or false other = other

abbrev pub package_check : Text → Option Text → Check
package_check name none = check (str "ERROR") name (str "not installed")
package_check name (some version) = check (str "PASS") name version

-- `a or b`
abbrev pub first_set : Option Text → Option Text → Option Text
first_set none b = b
first_set (some a) b = if is_empty a then b else some a

abbrev pub is_long_token : Option Text → Bool
is_long_token none = false
is_long_token (some token) = leb 16 (length token)

abbrev pub is_set : Option Text → Bool
is_set none = false
is_set (some value) = not (is_empty value)

abbrev pub key_check : Text → Text → Result Bytes → Check
key_check name message (ok key) = check (str "PASS") name (str "32 bytes")
key_check name message (err e) = check (str "ERROR") name message

-- message.splitlines()[0]
abbrev pub first_line : List Text → Result Text
first_line [] = err foreign
first_line (line ∷ lines) = ok line

abbrev pub tool_check : World → Text → Text → Check
tool_check w name tool = elim (w.which tool) [
  | none ↦ check (str "WARNING") name (str "not found")
  | some path ↦ check (str "PASS") name path
]

abbrev pub report : World → Platform → Values → Bool → Text → List Check
report w p values valid message =
    let token =
      first_set (p.environ (str "RELAYX_AUTH_TOKEN")) (get (str "RELAYX_AUTH_TOKEN") values) in
    let key =
      text_or
        (first_set (p.environ (str "RELAYX_ENCRYPTION_KEY"))
          (get (str "RELAYX_ENCRYPTION_KEY") values))
        [] in
    check (pass_or p.python_is_new (str "ERROR")) (str "Python") p.python_version
    ∷ check (str "PASS") (str "OpenSSL") p.openssl_version
    ∷ package_check (str "cryptography") (p.package_version (str "cryptography"))
    ∷ package_check (str "httpx") (p.package_version (str "httpx"))
    ∷ package_check (str "fastapi") (p.package_version (str "fastapi"))
    ∷ package_check (str "msgpack") (p.package_version (str "msgpack"))
    ∷ package_check (str "zstandard") (p.package_version (str "zstandard"))
    ∷ check (pass_or valid (str "ERROR")) (str "config") message
    ∷ check (pass_or (is_long_token token) (str "WARNING")) (str "auth token")
        (if is_set token then str "set" else str "not set")
    ∷ key_check (str "encryption key") (p.key_message key) (decode_encryption_key key)
    ∷ check (pass_or p.cwd_is_writable (str "WARNING")) (str "writable cwd") p.cwd
    ∷ tool_check w (str "systemd") (str "systemctl")
    ∷ tool_check w (str "Docker") (str "docker")
    ∷ tool_check w (str "nginx") (str "nginx")
    ∷ []

unfoldable pub doctor : World → Platform → Option Text → M (List Check)
doctor w p env_file = do
  values ← read_env_values env_file
  (valid, message) ← validate_file p env_file
  line ← lift (first_line (split_lines message))
  pure (report w p values valid line)

-- The commit, by whether git is found and what it prints.
abbrev pub commit_text : Option Text → Option Text → Text
commit_text (some git) (some commit) = commit
commit_text (some git) none = str "unknown"
commit_text none commit = str "unknown"

unfoldable pub version_info : World → Platform → Text
version_info w p = join_lines (
    (str "RelayX version: " ++ p.relayx_version)
    ∷ (str "Python version: " ++ p.python_version)
    ∷ (str "OpenSSL version: " ++ p.openssl_version)
    ∷ (str "Git commit: " ++ commit_text (w.which (str "git")) p.git_commit)
    ∷ (str "Platform: " ++ p.platform)
    ∷ [])
