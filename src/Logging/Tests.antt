-- ===== src/Logging/Tests.antt =====
-- A record with a secret field, an object and a line break.
use relay_x.Prelude.{ℕ, ◌≡◌, refl, [], ◌∷◌, true, some, none}
use relay_x.Prelude.Int.{pos}
use relay_x.Text.{Text, str}
use relay_x.Text.Equality.{text_eq, one_of}
use relay_x.Text.Decimal.{show_int, show_nat, digits}
use relay_x.Samples.{unicode, unicode-IsUnicode}
use relay_x.Logging.Json.{
  string, integer, update_item, escape_all, text_le, insert_item, sort_items, dump_value,
  dump_items, dumps,
}
use relay_x.Logging.{
  plain, object, is_secret, sanitize, update, LogRecord, payload, format, configure_logging,
  level_number,
}
use relay_x.Logging.Records.{is_print, format_print}
use relay_x.Logging.Secrets.{item_of, confidential, payload_hides}

abbrev log_record : LogRecord
log_record = record {
  levelname = str "INFO";
  name = str "relayx";
  message = str "two\nlines";
  exc_info = none;
  relayx = some (
      (str "Token", plain (string (str "secret")))
      ∷ (str "size", plain (integer (pos 42)))
      ∷ (str "path", object (str "/relay"))
      ∷ []);
}

abbrev float_repr : ℕ → Text
float_repr bits = str "0.5"

formatted :
    format unicode float_repr log_record
    ≡ str
        "{\"level\":\"INFO\",\"logger\":\"relayx\",\"message\":\"two\\nlines\",\"path\":\"/relay\",\"size\":42}"
unfolding format payload sanitize is_secret one_of text_eq update update_item sort_items insert_item
    text_le dumps dump_items dump_value escape_all show_int show_nat digits
formatted = refl

configured :
    configure_logging unicode (str "warning") (record { only_json = true; level = 0 })
    ≡ record { only_json = true; level = 30 }
unfolding configure_logging level_number text_eq
configured = refl

token_secret : one_of (unicode.lower (str "Token")) confidential ≡ true
unfolding one_of text_eq
token_secret = refl

payload_hides_example : item_of (str "Token") (payload unicode log_record) ≡ none
payload_hides_example =
    payload_hides unicode log_record (str "Token") unicode-IsUnicode token_secret

format_print_example : is_print (format unicode float_repr log_record) ≡ true
format_print_example = format_print float_repr (λ bits. refl) unicode log_record
