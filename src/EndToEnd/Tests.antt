-- ===== src/EndToEnd/Tests.antt =====
-- A client, a server and an upstream server that answers, or does not.
use relay_x.Prelude.{◌≡◌, refl, List, [], ◌∷◌, true, some, none, take, drop, arith}
use relay_x.Prelude.Int.{pos}
use relay_x.Text.{Bytes, str}
use relay_x.Errors.{ok, err, serialization_error}
use relay_x.Replay.{new_cache, check_and_store, check, purge, delete_all, expired_nonces}
use relay_x.Models.{request, response, error, new_error, validate_error, validate_request_id}
use relay_x.Text.Equality.{text_eq, one_of}
use relay_x.Text.Split.{strip, split_at}
use relay_x.Headers.{filter_forward_headers, connection_tokens, option_tokens, is_blocked}
use relay_x.Pipeline.Roundtrip.{Admits}
use relay_x.Server.{
  Outgoing, Upstream, failed, timeout, replied, ServerSettings, process, forward, failure_reply,
}
use relay_x.Client.{ClientSettings}
use relay_x.EndToEnd.{Side, IsConnected, send_through}
use relay_x.Server.Replies.{relayed}
use relay_x.EndToEnd.Reply.{send_through-replied}
use relay_x.EndToEnd.Failure.{send_through-failed}
use relay_x.Samples.{
  libraries, libraries-IsLibraries, unicode, unicode-IsUnicode, key, draw, limits, sample_request,
  sample_response, sample_error, request_packet, response_packet, error_packet, encodes,
  encodes_response, encodes_error, request-IsMade, request-Fits, response-Fits, error-Fits,
  response_valid,
}

abbrev client_settings : ClientSettings
client_settings = record {
  key = key;
  limits = limits;
  compression_enabled = true;
  compression_threshold_bytes = 0;
}

abbrev server_settings : ServerSettings
server_settings = record {
  auth_token = str "abc";
  key = key;
  limits = limits;
  compression_enabled = true;
  compression_threshold_bytes = 0;
}

abbrev halves : Bytes → List Bytes
halves packet = take 20 packet ∷ drop 20 packet ∷ []

abbrev side : Side
side = record { cache = some (new_cache 60 10 5); now = 2000; draw = draw }

-- The upstream server answers in two chunks.
abbrev answers : Outgoing → Upstream
answers o =
    replied (pos 200) (str "OK") ((str "Connection", str "close") ∷ []) ([] ∷ (5 ∷ []) ∷ []) none

abbrev is_silent : Outgoing → Upstream
is_silent o = failed timeout

admits : Admits (some (new_cache 60 10 5)) draw 2000
unfolding check_and_store check purge delete_all expired_nonces
admits = refl

connected :
    (upstream : Outgoing → Upstream)
    → IsConnected libraries upstream client_settings server_settings halves side side sample_request
        request_packet
connected upstream = record {
  laws = libraries-IsLibraries;
  tables = unicode-IsUnicode;
  same_key = refl;
  token = λ e. cc e;
  token_ascii = refl;
  joined = refl;
  within = omega arith;
  made = request-IsMade;
  encoded = encodes;
  fits = request-Fits;
  admitted = admits;
}

filtered :
    sample_response
    ≡ relayed unicode sample_request
        (pos 200)
        (str "OK")
        ((str "Connection", str "close") ∷ [])
        (5 ∷ [])
unfolding filter_forward_headers connection_tokens option_tokens is_blocked strip split_at one_of
    text_eq
filtered = refl

send_through-replied_example :
    (send_through libraries answers client_settings server_settings halves side side
      sample_request).0
    ≡ ok (response sample_response)
send_through-replied_example =
    send_through-replied libraries answers client_settings server_settings halves side side
      sample_request request_packet (connected answers) (pos 200) (str "OK")
      ((str "Connection", str "close") ∷ []) ([] ∷ (5 ∷ []) ∷ []) sample_response response_packet
      refl (omega arith) filtered response_valid encodes_response response-Fits admits

times_out :
    process libraries is_silent server_settings (ok (request sample_request))
    ≡ ok (error sample_error)
unfolding process forward failure_reply new_error validate_error validate_request_id text_eq one_of
times_out = refl

send_through-failed_example :
    (send_through libraries is_silent client_settings server_settings halves side side
      sample_request).0
    ≡ err serialization_error
send_through-failed_example =
    send_through-failed libraries is_silent client_settings server_settings halves side side
      sample_request request_packet (connected is_silent) sample_error error_packet times_out
      encodes_error error-Fits admits
