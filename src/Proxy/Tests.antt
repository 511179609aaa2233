-- ===== src/Proxy/Tests.antt =====
-- The proxy at a connection that sends nothing but a broken request.
use relay_x.Prelude.{[], none, true}
use relay_x.Text.{Text, Bytes, str}
use relay_x.Errors.{Result, ok}
use relay_x.Parser.{SplitUrl}
use relay_x.Client.{ClientSettings}
use relay_x.Proxy.{handle}
use relay_x.Proxy.Answers.{HandleEnds, handle-Answers}
use relay_x.Samples.{libraries, key, draw, limits, sample_request, response_packet}

abbrev settings : ClientSettings
settings = record {
  key = key;
  limits = limits;
  compression_enabled = true;
  compression_threshold_bytes = 0;
}

abbrev urlsplit : Text → Result SplitUrl
urlsplit target = ok (record {
  scheme = [];
  netloc = [];
  path = target;
  query = [];
  hostname = none;
  port = ok none;
})

abbrev post : Bytes → Result Bytes
post packet = ok response_packet

handle-Answers_example :
    HandleEnds libraries urlsplit settings post 100 sample_request.request_id none 2000 draw
      (str "GET")
      (handle libraries urlsplit settings post 100 sample_request.request_id none 2000 draw
        (str "GET"))
handle-Answers_example =
    handle-Answers libraries urlsplit settings post 100 sample_request.request_id none 2000 draw
      (str "GET")
