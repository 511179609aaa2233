-- ===== src/Samples/Messages.antt =====
-- A request, a response and an error message.
use relay_x.Prelude.{[], ◌∷◌, true, replicate, some}
use relay_x.Prelude.Int.{pos}
use relay_x.Text.{str}
use relay_x.Models.{RelayRequest, RelayResponse, RelayError}

abbrev pub sample_request : RelayRequest
sample_request = record {
  request_id = replicate 32 b'a';
  method = str "GET";
  scheme = str "http";
  host = str "example.org";
  port = some (pos 8080);
  path = str "/a";
  query = str "q=1";
  headers = (str "Accept", str "*/*") ∷ [];
  body = 1 ∷ 2 ∷ [];
  version = pos 1;
  kind = str "request";
}

abbrev pub sample_response : RelayResponse
sample_response = record {
  request_id = replicate 32 b'a';
  status_code = pos 200;
  reason_phrase = some (str "OK");
  headers = [];
  body = 5 ∷ [];
  version = pos 1;
  kind = str "response";
}

abbrev pub sample_error : RelayError
sample_error = record {
  request_id = some (replicate 32 b'a');
  error_code = str "upstream_timeout";
  message = str "Upstream request timed out";
  retryable = true;
  version = pos 1;
  kind = str "error";
}
