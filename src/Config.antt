-- ===== src/Config.antt =====
-- relayx/config.py: the settings and their validators.
-- What pydantic reads from the environment is a parameter: the fields as they are given. A float is
-- its IEEE double.
pub mod Valid
mod Tests
use relay_x.Prelude.{ℕ, List, [], ◌∷◌, Bool, not, ◌&&◌, ◌||◌, ◌==◌, leb, any}
use relay_x.Prelude.Int.{ℤ, pos, leb_ℤ, ltb_ℤ}
use relay_x.Text.{Text, Bytes, str}
use relay_x.Text.Equality.{text_eq, one_of}
use relay_x.Text.Unicode.{Unicode}
use relay_x.Errors.{Result, ok, ◌>>=◌, ◌>>◌, raise_if, value_error}
use relay_x.Models.{is_empty}
use relay_x.Keys.{decode_encryption_key}

pub record RelaySettings : Type 0 where
  pub auth_token : Text
  pub encryption_key : Text
  pub relay_url : Text
  pub proxy_host : Text
  pub proxy_port : ℤ
  pub server_host : Text
  pub server_port : ℤ
  pub replay_window_seconds : ℤ
  pub allowed_clock_skew_seconds : ℤ
  pub replay_cache_max_entries : ℤ
  pub compression_enabled : Bool
  pub compression_threshold_bytes : ℤ
  pub max_decompressed_bytes : ℤ
  pub max_carrier_body_bytes : ℤ
  pub max_request_body_bytes : ℤ
  pub max_response_body_bytes : ℤ
  pub max_header_bytes : ℤ
  pub timeout_seconds : ℕ
  pub log_level : Text

-- not (1 <= value <= 65535)
abbrev pub is_invalid_port : ℤ → Bool
is_invalid_port value = not (leb_ℤ (pos 1) value && leb_ℤ value (pos 65535))

-- value <= 0
abbrev pub is_not_positive : ℤ → Bool
is_not_positive value = leb_ℤ value (pos 0)

-- value < 0
abbrev pub is_negative : ℤ → Bool
is_negative value = ltb_ℤ value (pos 0)

-- value <= 0 for a double: a zero, or a negative number that is no NaN.
abbrev pub is_not_positive_float : ℕ → Bool
is_not_positive_float bits =
    bits == 0 || (leb 0x8000_0000_0000_0000 bits && leb bits 0xfff0_0000_0000_0000)

-- the fields of _positive_int
abbrev pub positive_fields : RelaySettings → List ℤ
positive_fields s =
    s.replay_window_seconds ∷ s.replay_cache_max_entries ∷ s.max_decompressed_bytes
    ∷ s.max_carrier_body_bytes ∷ s.max_request_body_bytes ∷ s.max_response_body_bytes
    ∷ s.max_header_bytes ∷ []

-- the fields of _non_negative_int
abbrev pub non_negative_fields : RelaySettings → List ℤ
non_negative_fields s = s.allowed_clock_skew_seconds ∷ s.compression_threshold_bytes ∷ []

abbrev pub log_levels : List Text
log_levels = str "DEBUG" ∷ str "INFO" ∷ str "WARNING" ∷ str "ERROR" ∷ str "CRITICAL" ∷ []

-- _valid_log_level
unfoldable pub valid_log_level : Unicode → Text → Result Text
valid_log_level u value = do
  raise_if (not (one_of (u.upper value) log_levels)) value_error
  ok (u.upper value)

-- The validators of the fields, and _separate_secrets behind them. Whichever refuses, pydantic
-- raises a ValidationError, which is a ValueError.
unfoldable pub validate_settings : Unicode → RelaySettings → Result RelaySettings
validate_settings u s = do
  raise_if (is_empty s.auth_token || is_empty s.encryption_key) value_error
  raise_if (is_invalid_port s.proxy_port || is_invalid_port s.server_port) value_error
  raise_if (any is_not_positive (positive_fields s)) value_error
  raise_if (any is_negative (non_negative_fields s)) value_error
  level ← valid_log_level u s.log_level
  raise_if (is_not_positive_float s.timeout_seconds) value_error
  raise_if (text_eq s.auth_token s.encryption_key) value_error
  ok (record s { log_level = level })

-- the property encryption_key_bytes
unfoldable pub encryption_key_bytes : RelaySettings → Result Bytes
encryption_key_bytes s = decode_encryption_key s.encryption_key
