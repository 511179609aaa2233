-- ===== src/Config/Tests.antt =====
-- The default settings, with two secrets.
use relay_x.Prelude.{◌≡◌, refl}
use relay_x.Text.Equality.{text_eq, one_of}
use relay_x.Errors.{ok, err, config_error}
use relay_x.Config.{validate_settings, valid_log_level, encryption_key_bytes}
use relay_x.Keys.{decode_encryption_key}
use relay_x.Keys.Base64.{sextet, b64decode}
use relay_x.Config.Valid.{IsUsable, validate_settings-IsUsable}
use relay_x.Samples.{unicode, default_settings, weak_settings}

accepted : validate_settings unicode default_settings ≡ ok default_settings
unfolding validate_settings valid_log_level one_of text_eq
accepted = refl

-- A key that is no base64 passes the validation, and cannot be used.
weak_accepted : validate_settings unicode weak_settings ≡ ok weak_settings
unfolding validate_settings valid_log_level one_of text_eq
weak_accepted = refl

weak_refused : encryption_key_bytes weak_settings ≡ err config_error
unfolding encryption_key_bytes decode_encryption_key b64decode sextet
weak_refused = refl

validate_settings-IsUsable_example : IsUsable default_settings
validate_settings-IsUsable_example =
    validate_settings-IsUsable unicode default_settings default_settings accepted
