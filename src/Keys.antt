-- ===== src/Keys.antt =====
-- relayx/crypto/keys.py, with the parts of the module `base64` that it and relayx/ops.py call.
pub mod Base64
pub mod Roundtrip
pub mod Answers
pub mod Plain
mod Tests
use relay_x.Prelude.{◌≡◌, Bool, true, false, not, length, ◌==◌, Option, some, none}
use relay_x.Text.{Text, Bytes}
use relay_x.Errors.{Result, ok, err, ◌>>=◌, ◌>>◌, raise_if, config_error}
use Base64.{b64decode}

-- What stands in the `try`: binascii.Error and UnicodeEncodeError are both a ValueError.
abbrev pub decoded : Option Bytes → Result Bytes
decoded none = err config_error
decoded (some key) = ok key

unfoldable pub decode_encryption_key : Text → Result Bytes
decode_encryption_key value = do
  key ← decoded (b64decode value)
  raise_if (not (length key == 32)) config_error
  ok key
