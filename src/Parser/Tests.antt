-- ===== src/Parser/Tests.antt =====
-- The parser at a concrete request.
use relay_x.Prelude.{◌≤◌, ◌≡◌, ◌≢◌, refl, [], ◌∷◌, ◌++◌, true, false, length, some, none}
use relay_x.Prelude.Int.{pos}
use relay_x.Text.{Text, Bytes, str}
use relay_x.Text.Equality.{text_eq}
use relay_x.Text.Split.{has_text}
use relay_x.Errors.{Result, ok}
use relay_x.Parser.{HttpRequestMessage, SplitUrl, crlf, head_end, read_headers, read_request}
use relay_x.Parser.Reading.{read_headers-exact}
use relay_x.Parser.Request.{IsReadRequest, read_request-IsReadRequest}
use relay_x.Samples.{unicode}

-- What urlsplit gives of "/a".
abbrev urlsplit : Text → Result SplitUrl
urlsplit target = ok (record {
  scheme = [];
  netloc = [];
  path = target;
  query = [];
  hostname = none;
  port = ok none;
})

abbrev request_head : Bytes
request_head =
    str "PUT /a HTTP/1.1"
    ++ (crlf ++ (str "Host: h:81" ++ (crlf ++ (str "Content-Length: 2" ++ head_end))))

abbrev stream : Bytes
stream = request_head ++ str "xyz"

abbrev parsed : HttpRequestMessage
parsed = record {
  method = str "PUT";
  scheme = str "http";
  host = str "h";
  port = some (pos 81);
  path = str "/a";
  query = [];
  headers = (str "Host", str "h:81") ∷ (str "Content-Length", str "2") ∷ [];
  body = str "xy";
}

head_read : read_headers 100 [] stream ≡ ok (request_head, str "xyz")
unfolding read_headers has_text
head_read = refl

read_headers-exact_example :
    (stream ≡ request_head ++ str "xyz")
    × (has_text head_end request_head ≡ true)
    × (length request_head ≤ 100)
    × ((a b : Bytes) → request_head ≡ a ++ b → b ≢ [] → has_text head_end a ≡ false)
read_headers-exact_example = read_headers-exact 100 stream request_head (str "xyz") head_read

reads : read_request unicode urlsplit stream 100 10 ≡ ok (parsed, str "z")
unfolding read_request read_headers has_text relay_x.Parser.parse_head relay_x.Parser.request_line
    relay_x.Text.Split.cut relay_x.Parser.split_lines text_eq relay_x.Models.validate_http_token
    relay_x.Parser.header_lines relay_x.Parser.header_line relay_x.Models.validate_header_list
    relay_x.Text.Split.lstrip relay_x.Parser.content_length relay_x.Text.Number.is_decimal
    relay_x.Text.Number.parse_int relay_x.Text.Split.strip_chars relay_x.Text.Number.magnitude
    relay_x.Parser.origin_target relay_x.Parser.single_host_header relay_x.Parser.target_of
    relay_x.Text.Number.digits_from relay_x.Text.Split.starts_with
reads = refl

read_request-IsReadRequest_example : IsReadRequest unicode urlsplit stream 100 10 parsed (str "z")
read_request-IsReadRequest_example =
    read_request-IsReadRequest unicode urlsplit stream 100 10 parsed (str "z") reads
