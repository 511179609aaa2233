-- ===== src/EndToEnd.antt =====
-- A request on its way: relayx/client/relay_client.py posts to the handler of
-- relayx/server/endpoint.py, and reads what the handler answers.
pub mod Reply
pub mod Failure
mod Tests
use relay_x.Prelude.{ℕ, ◌≤◌, ◌≡◌, ◌≢◌, List, [], ◌∷◌, ◌++◌, true, Option, some, length}
use relay_x.Text.{Text, Bytes, str}
use relay_x.Text.Unicode.{IsUnicode}
use relay_x.Constants.{relay_content_type}
use relay_x.Errors.{Result, ok}
use relay_x.Replay.{ReplayCache}
use relay_x.Models.{RelayRequest, request}
use relay_x.Codec.Roundtrip.{IsMade}
use relay_x.Pipeline.{Libraries, IsLibraries, Draw, encode_message}
use relay_x.Pipeline.Roundtrip.{Fits, Admits}
use relay_x.Server.{Outgoing, Upstream, ServerSettings, CarrierRequest, is_ascii_text, relay}
use relay_x.Server.Carrier.{concat}
use relay_x.Client.{ClientSettings, Sent, send}

-- What each side draws from its clock and its random source, and the cache that it has.
pub record Side : Type 0 where
  pub cache : Option ReplayCache
  pub now : ℕ
  pub draw : Draw

module _ (lib : Libraries) (upstream : Outgoing → Upstream) (c : ClientSettings)
    (s : ServerSettings) (split : Bytes → List Bytes) where
  -- The POST of RelayClient.send as FastAPI hands it to the handler; `split` is how the carrier cuts
  -- the body.
  abbrev pub carrier : Bytes → CarrierRequest
  carrier packet = record {
    authorization = some (str "Bearer " ++ s.auth_token);
    content_type = relay_content_type;
    chunks = split packet;
  }

  abbrev pub post : Side → Bytes → Result Bytes
  post server packet =
      (relay lib upstream s server.cache server.now server.draw (carrier packet)).result

  -- `send` of a client whose relay is this server.
  unfoldable pub send_through : Side → Side → RelayRequest → Sent
  send_through client server r = send lib c (post server) r client.cache client.now client.draw

  -- Both sides have the key and the token, and the request's packet passes the server's limits and
  -- its replay cache.
  pub record IsConnected (client server : Side) (r : RelayRequest) (packet : Bytes) : Type 0 where
    pub laws : IsLibraries lib
    pub tables : IsUnicode lib.unicode
    pub same_key : c.key ≡ s.key
    pub token : s.auth_token ≢ []
    pub token_ascii : is_ascii_text s.auth_token ≡ true
    pub joined : concat (split packet) ≡ packet
    pub within : length packet ≤ s.limits.max_ciphertext_bytes
    pub made : IsMade lib.unicode (request r)
    pub encoded :
        encode_message lib
          (request r)
          c.key
          c.compression_enabled
          c.compression_threshold_bytes
          client.draw
        ≡ ok packet
    pub fits : Fits lib s.limits (request r) packet
    pub admitted : Admits server.cache client.draw server.now
