-- ===== src/Constants.antt =====
-- relayx/constants.py: the constants of the wire protocol, the defaults and the header sets.
use relay_x.Prelude.{ℕ, List, [], ◌∷◌}
use relay_x.Text.{Text, Bytes, str}

-- b"RLX1"
abbrev pub magic : Bytes
magic = str "RLX1"

abbrev pub version : ℕ
version = 1

abbrev pub type_request : ℕ
type_request = 1

abbrev pub type_response : ℕ
type_response = 2

abbrev pub type_error : ℕ
type_error = 3

abbrev pub flag_compressed : ℕ
flag_compressed = 0x01

abbrev pub reserved : ℕ
reserved = 0

abbrev pub nonce_id_size : ℕ
nonce_id_size = 16

abbrev pub aead_nonce_size : ℕ
aead_nonce_size = 12

abbrev pub aad_size : ℕ
aad_size = 44

abbrev pub header_size : ℕ
header_size = 48

abbrev pub default_relay_path : Text
default_relay_path = str "/relay"

abbrev pub relay_content_type : Text
relay_content_type = str "application/octet-stream"

abbrev pub hop_by_hop_headers : List Text
hop_by_hop_headers =
    str "connection"
    ∷ str "keep-alive"
    ∷ str "proxy-authenticate"
    ∷ str "proxy-authorization"
    ∷ str "te"
    ∷ str "trailer"
    ∷ str "transfer-encoding"
    ∷ str "upgrade"
    ∷ str "content-length"
    ∷ []

abbrev pub proxy_only_headers : List Text
proxy_only_headers =
    str "proxy-connection" ∷ str "proxy-authorization" ∷ str "proxy-authenticate" ∷ []
