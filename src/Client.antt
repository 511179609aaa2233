-- ===== src/Client.antt =====
-- relayx/client/relay_client.py: a request is posted to the relay, and its reply is read.
-- The carrier's HTTP client is a parameter: what a POST of a packet gives.
pub mod Replies
mod Tests
use relay_x.Prelude.{ℕ, Bool, true, false, not, Option, some, none, if◌then◌else◌}
use relay_x.Text.{Text, Bytes}
use relay_x.Text.Equality.{text_eq}
use relay_x.Errors.{Exn, Result, ok, err, ◌>>=◌, ◌>>◌, raise_if, value_error}
use relay_x.Replay.{ReplayCache}
use relay_x.Models.{RelayRequest, Message, request, response, error}
use relay_x.Pipeline.{Libraries, Limits, Draw, encode_message, decode_message}

-- The settings that `send` reads.
pub record ClientSettings : Type 0 where
  pub key : Bytes
  pub limits : Limits
  pub compression_enabled : Bool
  pub compression_threshold_bytes : ℕ

-- reply.request_id is not None and reply.request_id != message.request_id
abbrev pub is_other_id : Option Text → Text → Bool
is_other_id none id = false
is_other_id (some reply_id) id = not (text_eq reply_id id)

-- The checks on a decoded reply.
unfoldable pub check_reply : RelayRequest → Message → Result Message
check_reply message (request r) = err value_error
check_reply message (response r) = do
  raise_if (is_other_id (some r.request_id) message.request_id) value_error
  ok (response r)
check_reply message (error e) = do
  raise_if (is_other_id e.request_id message.request_id) value_error
  ok (error e)

-- What a call of `send` leaves: the reply and the client's replay cache.
abbrev pub Sent : Type 0
Sent = Result Message × Option ReplayCache

module _ (lib : Libraries) (settings : ClientSettings) (post : Bytes → Result Bytes) where
  -- `post` is client.post with raise_for_status: the content of the response.
  unfoldable pub exchange : RelayRequest → Draw → Result Bytes
  exchange message draw = do
    packet ←
        encode_message lib (request message) settings.key settings.compression_enabled
          settings.compression_threshold_bytes draw
    post packet

  abbrev pub read_reply : RelayRequest → Option ReplayCache → ℕ → Result Bytes → Sent
  read_reply message cache now_ms (err e) = (err e, cache)
  read_reply message cache now_ms (ok content) =
      let (decoded, cache') =
        decode_message lib content settings.key cache settings.limits now_ms in
      (decoded >>= check_reply message, cache')

  -- RelayClient.send
  unfoldable pub send : RelayRequest → Option ReplayCache → ℕ → Draw → Sent
  send message cache now_ms draw = read_reply message cache now_ms (exchange message draw)
