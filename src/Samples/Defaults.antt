-- ===== src/Samples/Defaults.antt =====
-- The default settings, with two secrets.
use relay_x.Prelude.{true}
use relay_x.Prelude.Int.{pos}
use relay_x.Text.{str}
use relay_x.Config.{RelaySettings}

abbrev pub default_settings : RelaySettings
default_settings = record {
  auth_token = str "token";
  encryption_key = str "AAAAAAAAAAAAAAAAAAAAAAAAAAAAAAAAAAAAAAAAAAA=";
  relay_url = str "http://127.0.0.1:8000/relay";
  proxy_host = str "127.0.0.1";
  proxy_port = pos 8080;
  server_host = str "127.0.0.1";
  server_port = pos 8000;
  replay_window_seconds = pos 300;
  allowed_clock_skew_seconds = pos 30;
  replay_cache_max_entries = pos 100000;
  compression_enabled = true;
  compression_threshold_bytes = pos 1024;
  max_decompressed_bytes = pos 134217728;
  max_carrier_body_bytes = pos 134217728;
  max_request_body_bytes = pos 16777216;
  max_response_body_bytes = pos 67108864;
  max_header_bytes = pos 65536;
  timeout_seconds = 0x403e_0000_0000_0000;
  log_level = str "INFO";
}
