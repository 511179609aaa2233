-- ===== src/Keys/Tests.antt =====
-- RFC 4648's test vectors, and a key.
use relay_x.Prelude.{◌<◌, ◌⊎◌, All, length, replicate, ◌≡◌, refl, [], ◌∷◌, some, none}
use relay_x.Text.{Text, Bytes, str}
use relay_x.Errors.{ok, err, config_error}
use relay_x.Keys.{decode_encryption_key}
use relay_x.Keys.Answers.{decode_encryption_key-IsKey}
use relay_x.Keys.Base64.{letter, sextet, b64encode, b64decode, token_urlsafe}

encoded_fo : b64encode (str "fo") ≡ str "Zm8="
unfolding b64encode letter
encoded_fo = refl

encoded_foobar : b64encode (str "foobar") ≡ str "Zm9vYmFy"
unfolding b64encode letter
encoded_foobar = refl

decoded_f : b64decode (str "Zg==") ≡ some (str "f")
unfolding b64decode sextet
decoded_f = refl

decoded_foobar : b64decode (str "Zm9vYmFy") ≡ some (str "foobar")
unfolding b64decode sextet
decoded_foobar = refl

unfinished : b64decode (str "Zm9vYg") ≡ none
unfolding b64decode sextet
unfinished = refl

more_behind_pads : b64decode (str "Zg==Zg==") ≡ none
unfolding b64decode sextet
more_behind_pads = refl

token : token_urlsafe (251 ∷ 255 ∷ 0 ∷ 1 ∷ []) ≡ str "-_8AAQ"
unfolding token_urlsafe letter
token = refl

abbrev value : Text
value = str "AAAAAAAAAAAAAAAAAAAAAAAAAAAAAAAAAAAAAAAAAAA="

decode_encryption_key-IsKey_example :
    ((key : Bytes) × (decode_encryption_key value ≡ ok key)
      × (b64decode value ≡ some key)
      × (length key ≡ 32)
      × All (λ b. b < 256) key)
    ⊎ (decode_encryption_key value ≡ err config_error)
decode_encryption_key-IsKey_example = decode_encryption_key-IsKey value

zeros : decode_encryption_key value ≡ ok (replicate 32 0)
unfolding decode_encryption_key b64decode sextet
zeros = refl
