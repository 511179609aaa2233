-- ===== src/Server/Tests.antt =====
-- The relay at a concrete carrier request.
use relay_x.Prelude.{
  ◌≡◌, ◌↔◌, refl, [], ◌∷◌, length, leb, if◌then◌else◌, Option, some, none, true, take, drop,
}
use relay_x.Prelude.Int.{pos}
use relay_x.Text.{Text, Bytes, str}
use relay_x.Text.Decimal.{show_int, show_nat, digits}
use relay_x.Text.Equality.{text_eq}
use relay_x.Errors.{ok, err, http_exception, replay_cache_full}
use relay_x.Constants.{relay_content_type}
use relay_x.Replay.{ReplayCache, new_cache}
use relay_x.Models.{RelayRequest, Message, request, response, validate_request_id}
use relay_x.Pipeline.{decode_message}
use relay_x.Server.{
  Outgoing, url_of, Upstream, failed, timeout, replied, ServerSettings, CarrierRequest, Handled,
  authenticate, read_limited_body, error_from_exception, forward, finish, relay,
}
use relay_x.Server.Carrier.{IsAuthorized, authenticate_iff, concat, read_limited_body-eq}
use relay_x.Server.Replies.{error_of, error_from_exception_total, relayed}
use relay_x.Server.Forwarding.{Forwarded, forward_cases}
use relay_x.Server.Relay.{IsAccepted, Handles, relay-forwards_only, relay-cache}
use relay_x.Samples.{unicode, libraries, key, draw, limits, sample_request, request_packet}

authenticate_iff_example :
    (authenticate (some (str "Bearer abc")) (str "abc") ≡ ok tt)
    ↔ IsAuthorized (some (str "Bearer abc")) (str "abc")
authenticate_iff_example = authenticate_iff (some (str "Bearer abc")) (str "abc")

read_limited_body-eq_example : read_limited_body ((1 ∷ []) ∷ (2 ∷ 3 ∷ []) ∷ []) 2 ≡ (
    if leb (length (concat ((1 ∷ []) ∷ (2 ∷ 3 ∷ []) ∷ []))) 2
    then ok (1 ∷ 2 ∷ 3 ∷ [])
    else err (http_exception 413))
read_limited_body-eq_example = read_limited_body-eq ((1 ∷ []) ∷ (2 ∷ 3 ∷ []) ∷ []) 2

error_from_exception_total_example :
    error_from_exception replay_cache_full none
    ≡ ok (error_of none (str "replay_cache_full") (str "Replay cache is full") true)
error_from_exception_total_example = error_from_exception_total replay_cache_full none refl

valid_id : validate_request_id sample_request.request_id ≡ ok tt
unfolding validate_request_id
valid_id = refl

forward_cases_example :
    Forwarded sample_request 2
      (relayed unicode sample_request (pos 200) (str "OK") [] (1 ∷ 2 ∷ []))
      ((1 ∷ []) ∷ (2 ∷ []) ∷ [])
      none
      (forward unicode
        (λ o. replied (pos 200) (str "OK") [] ((1 ∷ []) ∷ (2 ∷ []) ∷ []) none)
        2
        sample_request)
forward_cases_example =
    forward_cases unicode sample_request 2 (pos 200) (str "OK") [] none
      (λ o. replied (pos 200) (str "OK") [] ((1 ∷ []) ∷ (2 ∷ []) ∷ []) none)
      ((1 ∷ []) ∷ (2 ∷ []) ∷ []) valid_id refl

url : url_of sample_request ≡ str "http://example.org:8080/a?q=1"
unfolding url_of show_int show_nat digits
url = refl

abbrev upstream : Outgoing → Upstream
upstream r = failed timeout

abbrev settings : ServerSettings
settings = record {
  auth_token = str "abc";
  key = key;
  limits = limits;
  compression_enabled = true;
  compression_threshold_bytes = 0;
}

abbrev carrier : CarrierRequest
carrier = record {
  authorization = some (str "Bearer abc");
  content_type = relay_content_type;
  chunks = take 20 request_packet ∷ drop 20 request_packet ∷ [];
}

abbrev cache : Option ReplayCache
cache = some (new_cache 60 10 5)

forwards :
    (relay libraries upstream settings cache 2000 draw carrier).forwarded ≡ some sample_request
unfolding relay relay_x.Server.accept_body authenticate relay_x.Server.check_credentials
    relay_x.Text.Split.cut text_eq relay_x.Server.compare_digest relay_x.Text.Split.split_at
    read_limited_body relay_x.Server.read_chunks decode_message relay_x.Packet.open_packet
    relay_x.Packet.parse_aad relay_x.Packet.is_invalid_header relay_x.Struct.unpack_uint
    relay_x.Struct.from_little relay_x.Packet.decrypt_or_raise relay_x.Codec.Data.get
    relay_x.Codec.Data.has_keys relay_x.Codec.Data.only_keys relay_x.Codec.check_keys
    relay_x.Codec.from_value relay_x.Codec.to_dict relay_x.Codec.loads relay_x.Codec.parse_headers
    relay_x.Codec.parse_message relay_x.Codec.require_body relay_x.Codec.require_str
    relay_x.Compression.maybe_decompress relay_x.Models.validate_common
    relay_x.Models.validate_header_list relay_x.Pipeline.check_replay relay_x.Pipeline.check_sizes
    relay_x.Pipeline.decode_opened relay_x.Pipeline.decode_payload relay_x.Text.Equality.one_of
    relay_x.Codec.parse_request relay_x.Codec.require_optional_int relay_x.Models.new_request
    relay_x.Models.validate_http_token relay_x.Models.validate_request relay_x.Text.Split.has_text
    relay_x.Replay.check relay_x.Replay.check_and_store relay_x.Replay.delete_all
    relay_x.Replay.expired_nonces relay_x.Replay.purge relay_x.Codec.pairs_to_lists
forwards = refl

relay-forwards_only_example :
    (body : Bytes) × IsAccepted libraries upstream settings carrier body
    × ((decode_message libraries body key cache limits 2000).0 ≡ ok (request sample_request))
relay-forwards_only_example =
    relay-forwards_only libraries upstream settings carrier cache 2000 draw sample_request forwards

relay-cache_example :
    Handles libraries upstream settings carrier cache 2000 draw
      (relay libraries upstream settings cache 2000 draw carrier)
relay-cache_example = relay-cache libraries upstream settings carrier cache 2000 draw
