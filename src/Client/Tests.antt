-- ===== src/Client/Tests.antt =====
-- A request sent through a relay that answers with the sample response.
use relay_x.Prelude.{◌≡◌, refl, none, true}
use relay_x.Text.{Bytes}
use relay_x.Errors.{Result, ok}
use relay_x.Models.{request, response}
use relay_x.Pipeline.{decode_message}
use relay_x.Client.{ClientSettings, exchange, send}
use relay_x.Client.Replies.{Answers, send-Answers}
use relay_x.Samples.{libraries, key, draw, limits, sample_request, sample_response, response_packet}

abbrev settings : ClientSettings
settings = record {
  key = key;
  limits = limits;
  compression_enabled = true;
  compression_threshold_bytes = 0;
}

abbrev post : Bytes → Result Bytes
post packet = ok response_packet

sends :
    (send libraries settings post sample_request none 2000 draw).0 ≡ ok (response sample_response)
unfolding send exchange relay_x.Client.check_reply relay_x.Pipeline.encode_message
    relay_x.Codec.dumps relay_x.Text.Equality.text_eq relay_x.Compression.maybe_compress
    relay_x.Codec.message_type relay_x.Packet.seal relay_x.Packet.make_aad relay_x.Struct.pack_uint
    relay_x.Struct.pack_bytes relay_x.Struct.little decode_message relay_x.Packet.open_packet
    relay_x.Packet.parse_aad relay_x.Packet.is_invalid_header relay_x.Struct.unpack_uint
    relay_x.Struct.from_little relay_x.Packet.decrypt_or_raise relay_x.Codec.Data.get
    relay_x.Codec.Data.has_keys relay_x.Codec.Data.only_keys relay_x.Codec.check_keys
    relay_x.Codec.from_value relay_x.Codec.to_dict relay_x.Codec.loads relay_x.Codec.parse_headers
    relay_x.Codec.parse_message relay_x.Codec.require_body relay_x.Codec.require_str
    relay_x.Compression.maybe_decompress relay_x.Models.validate_common
    relay_x.Models.validate_header_list relay_x.Pipeline.check_replay relay_x.Pipeline.check_sizes
    relay_x.Pipeline.decode_opened relay_x.Pipeline.decode_payload relay_x.Text.Equality.one_of
    relay_x.Codec.parse_response relay_x.Codec.require_int relay_x.Codec.require_optional_str
    relay_x.Models.new_response relay_x.Models.validate_response
sends = refl

send-Answers_example :
    Answers sample_request (response sample_response)
    × ((content : Bytes) × (exchange libraries settings post sample_request draw ≡ ok content)
        × ((decode_message libraries content key none limits 2000).0
            ≡ ok (response sample_response)))
send-Answers_example =
    send-Answers libraries settings post sample_request none 2000 draw (response sample_response)
      sends
