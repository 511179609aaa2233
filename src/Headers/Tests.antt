-- ===== src/Headers/Tests.antt =====
-- Filtering at a concrete header list.
use relay_x.Prelude.{◌≡◌, refl, [], ◌∷◌}
use relay_x.Text.{str}
use relay_x.Text.Equality.{one_of}
use relay_x.Errors.{ok}
use relay_x.Models.{HeaderList, validate_header_list, validate_http_token}
use relay_x.Headers.{filter_forward_headers, connection_tokens, is_blocked, option_tokens}
use relay_x.Text.Split.{strip, split_at}
use relay_x.Headers.Exact.{Passes, filter_forward_headers-Passes}
use relay_x.Samples.{unicode}

abbrev headers : HeaderList
headers =
    (str "Connection", str "close, X-Trace")
    ∷ (str "X-Trace", str "1")
    ∷ (str "Host", str "a")
    ∷ (str "Keep-Alive", str "5")
    ∷ (str "Proxy-Connection", str "x")
    ∷ []

filters : filter_forward_headers unicode headers ≡ (str "Host", str "a") ∷ []
unfolding filter_forward_headers is_blocked one_of connection_tokens option_tokens strip split_at
filters = refl

filter_forward_headers-Passes_example :
    Passes unicode headers headers (filter_forward_headers unicode headers)
filter_forward_headers-Passes_example = filter_forward_headers-Passes unicode headers

valid : validate_header_list headers ≡ ok tt
unfolding validate_header_list validate_http_token
valid = refl
