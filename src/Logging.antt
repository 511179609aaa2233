-- ===== src/Logging.antt =====
-- relayx/logging.py: the JSON records, and the set-up of the root logger.
-- repr of a float is an argument.
pub mod Json
pub mod Records
pub mod Secrets
mod Tests
use relay_x.Prelude.{ℕ, List, [], ◌∷◌, ◌++◌, Bool, true, false, Option, some, none, if◌then◌else◌}
use relay_x.Text.{Text, str}
use relay_x.Text.Equality.{text_eq, one_of}
use relay_x.Text.Unicode.{Unicode}
use Json.{Value, string, Dict, update_item, dumps}

-- _SECRET_FIELDS
abbrev pub secret_fields : List Text
secret_fields =
    str "authorization"
    ∷ str "auth_token"
    ∷ str "encryption_key"
    ∷ str "token"
    ∷ str "key"
    ∷ str "body"
    ∷ str "request_body"
    ∷ str "response_body"
    ∷ []

-- What a mapping of extra fields holds: a key by its str(), and a value that is put as it is or an
-- object by its str().
pub data Extra : Type 0 where
  plain : Value → Extra
  object : Text → Extra

abbrev pub value_of : Extra → Value
value_of (plain value) = value
value_of (object text) = string text

-- key_text.lower() in _SECRET_FIELDS
unfoldable pub is_secret : Unicode → Text → Bool
is_secret u key_text = one_of (u.lower key_text) secret_fields

unfoldable pub sanitize : Unicode → List (Text × Extra) → Dict → Dict
sanitize u [] sanitized = sanitized
sanitize u ((key_text, value) ∷ values) sanitized =
    sanitize u values
      (if is_secret u key_text then sanitized else update_item key_text (value_of value) sanitized)

-- A logging.LogRecord, with its message and its exception formatted; `relayx` is the attribute of
-- that name, if it is a mapping.
pub record LogRecord : Type 0 where
  pub levelname : Text
  pub name : Text
  pub message : Text
  pub exc_info : Option Text
  pub relayx : Option (List (Text × Extra))

abbrev pub add_exc_info : Option Text → Dict → Dict
add_exc_info none payload = payload
add_exc_info (some text) payload = update_item (str "exc_info") (string text) payload

-- payload.update(items)
unfoldable pub update : Dict → Dict → Dict
update [] payload = payload
update ((key, value) ∷ items) payload = update items (update_item key value payload)

abbrev pub add_extra : Unicode → Option (List (Text × Extra)) → Dict → Dict
add_extra u none payload = payload
add_extra u (some extra) payload = update (sanitize u extra []) payload

unfoldable pub payload : Unicode → LogRecord → Dict
payload u r = add_extra u r.relayx (
    add_exc_info r.exc_info (
      (str "level", string r.levelname)
      ∷ (str "logger", string r.name)
      ∷ (str "message", string r.message)
      ∷ []))

-- JsonFormatter.format
unfoldable pub format : Unicode → (ℕ → Text) → LogRecord → Text
format u float_repr r = dumps float_repr (payload u r)

-- The root logger: whether it has the JSON handler on standard output and no other, and its level.
pub record RootLogger : Type 0 where
  pub only_json : Bool
  pub level : ℕ

abbrev pub level_numbers : List (Text × ℕ)
level_numbers =
    (str "CRITICAL", 50)
    ∷ (str "ERROR", 40)
    ∷ (str "WARNING", 30)
    ∷ (str "INFO", 20)
    ∷ (str "DEBUG", 10)
    ∷ []

-- getattr(logging, name, logging.INFO), for the names that the settings accept.
unfoldable pub level_number : Text → List (Text × ℕ) → ℕ
level_number name [] = 20
level_number name ((key, n) ∷ numbers) =
    let rest = level_number name numbers in if text_eq name key then n else rest

unfoldable pub configure_logging : Unicode → Text → RootLogger → RootLogger
configure_logging u level root = record {
  only_json = true;
  level = level_number (u.upper level) level_numbers;
}
