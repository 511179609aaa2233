-- ===== src/Lib.antt =====
-- RelayX: an HTTP relay whose requests and responses travel as authenticated, encrypted packets.
--
-- A local proxy parses an HTTP request, makes a RelayRequest of it and sends it to the relay
-- server; the server opens it, forwards it upstream and answers with a RelayResponse or a
-- RelayError. Between the two, a message is serialized with msgpack against a strict schema,
-- compressed with zstd above a threshold, and sealed with ChaCha20-Poly1305 under a header with a
-- timestamp and a nonce, which the receiver's replay cache admits once.
--
-- The modules and the code they model:
--   Constants       relayx/constants.py
--   Errors          relayx/errors.py: the exceptions, and Result for code that may raise
--   Replay          relayx/protocol/replay.py: ReplayCache, check_and_store, _purge (purge)
--   Struct          the formats of Python's struct module that the packet header uses
--   Packet          relayx/crypto/aead.py: seal, open_packet, _aad (make_aad), _parse_aad (parse_aad)
--   Models          relayx/protocol/models.py: the messages; new_request, new_response and new_error
--                   are the constructors with their __post_init__ (validate_request, ...)
--   Codec           relayx/protocol/codec.py: dumps, loads; Codec.Data has msgpack's values
--   Compression     relayx/compression.py
--   Pipeline        relayx/pipeline.py: encode_message, decode_message
--   Headers         relayx/http/headers.py: filter_forward_headers
--   Server          relayx/server/endpoint.py (authenticate, read_limited_body,
--                   error_from_exception, relay) and relayx/server/forwarder.py (forward)
--   Client          relayx/client/relay_client.py: send
--   Parser          relayx/http/parser.py and messages.py: read_request, _read_headers
--                   (read_headers), _target (target_of), _content_length, _single_host_header
--   Writer          relayx/http/writer.py: write_response
--   Proxy           relayx/client/proxy.py: LocalProxy.handle (handle)
--   Config          relayx/config.py: the validators of RelaySettings (validate_settings)
--   Keys            relayx/crypto/keys.py: decode_encryption_key; Keys.Base64 has Python's base64
--   Ops             relayx/ops.py: the checks of names, generate_secrets, env_template, systemd_unit
--   Ops.Paths       the paths, and what they lead to from the working directory
--   Ops.Machine     the files, commands and console that the operations work on
--   Ops.EnvFile     relayx/ops.py: write_env_file, _read_env_values (read_env_values)
--   Ops.Service     relayx/ops.py: run_commands, install_service, uninstall_service, service_action
--   Ops.Doctor      relayx/ops.py: validate_settings (validate_file), version_info, doctor
--   Cli             relayx/cli.py: the commands and main
--   Logging         relayx/logging.py: JsonFormatter.format, _sanitize, configure_logging
--   App             relayx/server/app.py: create_app, the middleware (enter, leave), _wait_for_outstanding
--                   and the shutdown; /health and /ready of relayx/server/endpoint.py
--   EndToEnd        relayx/client/relay_client.py's send, with its POST handled by the relay
--   Prelude, Text   numbers, lists, Python's str and bytes and their methods
--   Samples         concrete libraries and messages for the examples in the modules named Tests
--
-- How state and effects are written: a method of ReplayCache takes the cache and returns the result
-- with the cache that it leaves, which decode_message, relay and send pass on. A raised exception is
-- `err` of its class. The clock and the random tokens are arguments: `now_ms`, and the record Draw.
-- An async function runs alone: the handlers share nothing but the replay cache, whose methods do
-- not await, so an interleaving of handlers is an order of its calls (Replay.History.Call,
-- Pipeline.Once.Delivery), and the counter of the middleware, which the steps of App.Step change in
-- any order. A `str` is the list of its code points, a `bytes` the list of its bytes. Sizes, instants
-- and durations are natural numbers; the fields that a peer chooses (version, status_code, port) are
-- integers. The recursions are structural, with two exceptions. The decimal digits of a number have
-- its successor as fuel, and a number has no more digits than that. The loop of
-- _wait_for_outstanding has fuel for its tests: if every sleep takes some time on the clock, one test
-- more than the timeout has such sleeps is enough.
-- The operations of relayx/ops.py and relayx/cli.py take the machine (the working directory, files by
-- absolute path, commands run, lines printed, answers still to be given, the root logger) and return
-- the result with the machine as they leave it, also when they raise.
--
-- The code outside the repository is a parameter, with its documented behaviour as hypotheses:
-- ChaCha20Poly1305 (Packet.Aead: Cipher, IsCipher), msgpack (Codec: Msgpack, IsMsgpack), zstd
-- (Compression: Zstd, IsZstd), the Unicode tables of the interpreter (Text.Unicode), httpx (the
-- functions `upstream` and `post`), urllib's urlsplit (Parser.SplitUrl), pydantic (it gives the
-- fields of RelaySettings, also from an environment file: Ops.Doctor.Platform) and FastAPI (the
-- record CarrierRequest). IsCipher takes a ciphertext to be determined by key, nonce, associated data
-- and plaintext, as it is for this cipher; that it cannot be forged without the key is no theorem
-- here.
--
-- Not modelled: the calls of the logger in the handlers; FastAPI's and asyncio's wiring
-- (relayx/client/app.py and the rest of relayx/server/app.py), argparse's reading of the command line,
-- the running servers, what systemctl and useradd do to the machine, symbolic links, a path
-- with ".." behind a directory that is missing, a removal of a tree that stops halfway, texts that
-- UTF-8 cannot encode, and the benchmarks, which measure time and memory.
pub mod Prelude
pub mod Text
pub mod Constants
pub mod Errors
pub mod Replay
pub mod Struct
pub mod Packet
pub mod Models
pub mod Codec
pub mod Compression
pub mod Headers
pub mod Server
pub mod Client
pub mod Parser
pub mod Writer
pub mod Proxy
pub mod Config
pub mod Ops
pub mod App
pub mod Keys
pub mod Logging
pub mod Cli
pub mod EndToEnd
pub mod Samples
pub mod Pipeline
