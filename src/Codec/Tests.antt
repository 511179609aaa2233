-- ===== src/Codec/Tests.antt =====
-- The codec at the sample messages.
use relay_x.Prelude.{◌≡◌, refl, [], ◌∷◌, some, none}
use relay_x.Text.Equality.{text_eq}
use relay_x.Errors.{ok, err, serialization_error}
use relay_x.Models.{request}
use relay_x.Codec.{loads, message_type}
use relay_x.Codec.Roundtrip.{loads-dumps}
use relay_x.Codec.Strict.{IsSound, loads-IsSound, loads-raises}
use relay_x.Samples.{request-IsMade, dumped, unicode, msgpack, msgpack-IsMsgpack, sample_request}

typed : message_type (request sample_request) ≡ ok 1
unfolding message_type text_eq
typed = refl

loads-dumps_example : loads unicode msgpack (1 ∷ []) (some 1) ≡ ok (request sample_request)
loads-dumps_example =
    loads-dumps unicode msgpack (request sample_request) 1 (1 ∷ []) msgpack-IsMsgpack request-IsMade
      typed dumped

loads-IsSound_example :
    IsSound unicode (request sample_request) × (message_type (request sample_request) ≡ ok 1)
loads-IsSound_example =
    loads-IsSound unicode msgpack (1 ∷ []) 1 (request sample_request) loads-dumps_example

garbage : loads unicode msgpack (9 ∷ []) none ≡ err serialization_error
unfolding loads text_eq
garbage = refl

loads-raises_example : serialization_error ≡ serialization_error
loads-raises_example = loads-raises unicode msgpack (9 ∷ []) none serialization_error garbage
