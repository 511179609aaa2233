-- ===== src/Logging/Secrets.antt =====
-- About secret fields in log records.
use relay_x.Prelude.{
  ◌≡◌, refl, ap, ◌∙◌, List, [], ◌∷◌, Bool, true, false, Bool-cases, inl, inr, Option, some, none,
  if◌then◌else◌, arith,
}
use relay_x.Text.{Text, str}
use relay_x.Text.Equality.{text_eq, one_of, eq_of_text_eq}
use relay_x.Text.Unicode.{Unicode, IsUnicode}
use relay_x.Logging.Json.{Value, string, Dict, update_item}
use relay_x.Logging.{
  Extra, value_of, is_secret, sanitize, LogRecord, add_exc_info, update, add_extra, payload,
}

-- The value of a key.
unfoldable pub item_of : Text → Dict → Option Value
item_of key [] = none
item_of key ((k, v) ∷ items) =
    let rest = item_of key items in if text_eq k key then some v else rest

item_of_nil : (key : Text) → item_of key [] ≡ none
unfolding item_of
item_of_nil key = refl

item_of-update_item :
    (key k : Text) (v : Value) (items : Dict)
    → text_eq k key ≡ false
    → item_of key (update_item k v items) ≡ item_of key items
unfolding item_of update_item
item_of-update_item key k v [] other = rw other
item_of-update_item key k v ((k', v') ∷ items) other = elim (Bool-cases (text_eq k' k)) [
  | inl same ↦
      let differs = ap (λ t. text_eq t key) (eq_of_text_eq k' k same) ∙ other in
      rw same (rw differs refl)
  | inr differs ↦ rw differs (
      ap (λ (o : Option Value). if text_eq k' key then some v' else o)
        (item_of-update_item key k v items other))
]

-- A key that is no secret is another key than a secret one.
secret_differs :
    (u : Unicode) (k key : Text)
    → is_secret u key ≡ true
    → is_secret u k ≡ false
    → text_eq k key ≡ false
secret_differs u k key secret open_key = from (text_eq k key) refl
  where
    from : (b : Bool) → text_eq k key ≡ b → b ≡ false
    from false e = refl
    from true e = let same = ap (is_secret u) (eq_of_text_eq k key e) in cc

item_of-sanitize :
    (u : Unicode) (key : Text) (values : List (Text × Extra)) (acc : Dict)
    → is_secret u key ≡ true
    → item_of key (sanitize u values acc) ≡ item_of key acc
unfolding sanitize
item_of-sanitize u key [] acc secret = refl
item_of-sanitize u key ((k, v) ∷ values) acc secret = elim (Bool-cases (is_secret u k)) [
  | inl hidden ↦ rw hidden (item_of-sanitize u key values acc secret)
  | inr shown ↦ rw shown (
      item_of-sanitize u key values (update_item k (value_of v) acc) secret
      ∙ item_of-update_item key k (value_of v) acc (secret_differs u k key secret shown))
]

missing :
    (key k : Text) (v : Value) (items : Dict)
    → item_of key ((k, v) ∷ items) ≡ none
    → (text_eq k key ≡ false) × (item_of key items ≡ none)
unfolding item_of
missing key k v items h = from (text_eq k key) h
  where
    from :
        (b : Bool)
        → (if b then some v else item_of key items) ≡ none
        → (b ≡ false) × (item_of key items ≡ none)
    from true e = cc
    from false e = (refl, e)

item_of-update :
    (key : Text) (items p : Dict)
    → item_of key items ≡ none
    → item_of key (update items p) ≡ item_of key p
unfolding update
item_of-update key [] p h = refl
item_of-update key ((k, v) ∷ items) p h =
    let (other, rest) = missing key k v items h in
    item_of-update key items (update_item k v p) rest ∙ item_of-update_item key k v p other

item_of-add_extra :
    (u : Unicode) (key : Text) (extra : Option (List (Text × Extra))) (p : Dict)
    → is_secret u key ≡ true
    → item_of key (add_extra u extra p) ≡ item_of key p
item_of-add_extra u key none p secret = refl
item_of-add_extra u key (some extra) p secret =
    item_of-update key (sanitize u extra []) p
      (item_of-sanitize u key extra [] secret ∙ item_of_nil key)

item_of-add_exc_info :
    (key : Text) (exc_info : Option Text) (p : Dict)
    → text_eq (str "exc_info") key ≡ false
    → item_of key (add_exc_info exc_info p) ≡ item_of key p
item_of-add_exc_info key none p other = refl
item_of-add_exc_info key (some text) p other =
    item_of-update_item key (str "exc_info") (string text) p other

item_of_three :
    (key : Text) (a b c : Value)
    → text_eq (str "level") key ≡ false
    → text_eq (str "logger") key ≡ false
    → text_eq (str "message") key ≡ false
    → item_of key ((str "level", a) ∷ (str "logger", b) ∷ (str "message", c) ∷ []) ≡ none
unfolding item_of
item_of_three key a b c x y z = rw (x, y, z) refl

-- The keys of every record are no secrets.
base_open :
    (u : Unicode)
    → IsUnicode u
    → (is_secret u (str "level") ≡ false)
      × (is_secret u (str "logger") ≡ false)
      × (is_secret u (str "message") ≡ false)
      × (is_secret u (str "exc_info") ≡ false)
unfolding is_secret one_of text_eq
base_open u h = (
  rw (h.lower_ascii (str "level") (omega arith)) refl,
  rw (h.lower_ascii (str "logger") (omega arith)) refl,
  rw (h.lower_ascii (str "message") (omega arith)) refl,
  rw (h.lower_ascii (str "exc_info") (omega arith)) refl,
)

-- The names of bearer tokens, encryption keys, Authorization headers and bodies.
abbrev pub confidential : List Text
confidential =
    str "token"
    ∷ str "auth_token"
    ∷ str "key"
    ∷ str "encryption_key"
    ∷ str "authorization"
    ∷ str "body"
    ∷ str "request_body"
    ∷ str "response_body"
    ∷ []

-- One of them is a secret field.
confidential-secret :
    (u : Unicode) (key : Text) → one_of (u.lower key) confidential ≡ true → is_secret u key ≡ true
unfolding is_secret one_of
confidential-secret u key h = ground arith

-- With the Unicode tables' facts on ASCII, no log record has an item whose name, lower-cased, is
-- one of those of bearer tokens, encryption keys, Authorization headers and bodies, whatever extra
-- fields the caller passes.
pub payload_hides :
    (u : Unicode) (r : LogRecord) (key : Text)
    → IsUnicode u
    → one_of (u.lower key) confidential ≡ true
    → item_of key (payload u r) ≡ none
unfolding payload
payload_hides u r key h named =
    let secret = confidential-secret u key named in
    let (a, b, c, d) = base_open u h in
    item_of-add_extra u key r.relayx _ secret
    ∙ item_of-add_exc_info key r.exc_info _ (secret_differs u (str "exc_info") key secret d)
    ∙ item_of_three key (string r.levelname) (string r.name) (string r.message)
        (secret_differs u (str "level") key secret a) (secret_differs u (str "logger") key secret b)
        (secret_differs u (str "message") key secret c)
