-- ===== src/Samples/Facts.antt =====
-- What the sample messages are encoded as, and what holds of them.
use relay_x.Prelude.{◌≤◌, ◌≡◌, ℕ, sym, ◌∙◌, refl, [], ◌∷◌, length, true, arith}
use mathlib.Core.Path.{subst}
use relay_x.Text.{Bytes}
use relay_x.Text.Equality.{text_eq, one_of}
use relay_x.Errors.{ok, ok-injective}
use relay_x.Struct.{little, pack_uint, pack_bytes}
use relay_x.Packet.{seal, make_aad}
use relay_x.Codec.{dumps, to_dict, message_type}
use relay_x.Codec.Roundtrip.{IsMade}
use relay_x.Compression.{maybe_compress}
use relay_x.Models.{
  request, response, error, Message, validate_response, validate_request, validate_common,
  validate_http_token, validate_header_list,
}
use relay_x.Text.Split.{has_text}
use relay_x.Pipeline.{encode_message, check_sizes}
use relay_x.Pipeline.Roundtrip.{Fits}
use relay_x.Samples.Messages.{sample_request, sample_response, sample_error}
use relay_x.Samples.Table.{msgpack}
use relay_x.Samples.Library.{
  unicode, libraries, key, draw, limits, request_packet, error_packet, response_packet,
}

pub encodes : encode_message libraries (request sample_request) key true 0 draw ≡ ok request_packet
unfolding encode_message dumps to_dict text_eq maybe_compress message_type seal make_aad pack_uint
    pack_bytes little
encodes = refl

pub encodes_error : encode_message libraries (error sample_error) key true 0 draw ≡ ok error_packet
unfolding encode_message dumps to_dict text_eq maybe_compress message_type seal make_aad pack_uint
    pack_bytes little
encodes_error = refl

pub encodes_response :
    encode_message libraries (response sample_response) key true 0 draw ≡ ok response_packet
unfolding encode_message dumps to_dict text_eq maybe_compress message_type seal make_aad pack_uint
    pack_bytes little
encodes_response = refl

pub dumped : dumps unicode msgpack (request sample_request) ≡ ok (1 ∷ [])
unfolding dumps to_dict text_eq
dumped = refl

pub dumped_error : dumps unicode msgpack (error sample_error) ≡ ok (2 ∷ [])
unfolding dumps to_dict text_eq
dumped_error = refl

pub dumped_response : dumps unicode msgpack (response sample_response) ≡ ok (3 ∷ [])
unfolding dumps to_dict text_eq
dumped_response = refl

small :
    (message : Message) (b : ℕ)
    → dumps unicode msgpack message ≡ ok (b ∷ [])
    → (serialized : Bytes) → dumps unicode msgpack message ≡ ok serialized
    → length serialized ≤ 1000
small message b known serialized h =
    let same : b ∷ [] ≡ serialized = ok-injective (sym known ∙ h) in
    subst (λ x. length x ≤ 1000) same (omega arith)

pub request-Fits : Fits libraries limits (request sample_request) request_packet
unfolding check_sizes
request-Fits = record {
  carrier = omega arith;
  decompressed = small (request sample_request) 1 dumped;
  sizes = refl;
}

pub error-Fits : Fits libraries limits (error sample_error) error_packet
unfolding check_sizes
error-Fits = record {
  carrier = omega arith;
  decompressed = small (error sample_error) 2 dumped_error;
  sizes = refl;
}

pub response-Fits : Fits libraries limits (response sample_response) response_packet
unfolding check_sizes
response-Fits = record {
  carrier = omega arith;
  decompressed = small (response sample_response) 3 dumped_response;
  sizes = refl;
}

pub response_valid : validate_response sample_response ≡ ok tt
unfolding validate_response validate_common one_of validate_header_list
response_valid = refl

pub request-IsMade : IsMade unicode (request sample_request)
unfolding validate_request validate_common one_of validate_http_token has_text validate_header_list
request-IsMade = (refl, refl, refl)
