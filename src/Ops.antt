-- ===== src/Ops.antt =====
-- relayx/ops.py: the checks of names, the environment file and the service unit.
-- What shutil.which finds and the generated secrets are arguments.
pub mod Names
pub mod Paths
pub mod Machine
pub mod EnvFile
pub mod Service
pub mod Changes
pub mod DryRun
pub mod Keeps
pub mod Gone
pub mod Uninstall
pub mod EnvRoundtrip
pub mod WriteEnv
pub mod Template
pub mod Init
pub mod Doctor
mod Tests
use relay_x.Prelude.{
  ℕ, zero, List, [], ◌∷◌, ◌++◌, Bool, true, false, not, ◌&&◌, ◌||◌, ◌==◌, leb, all, length, map,
  Option, some, none, if◌then◌else◌,
}
use relay_x.Prelude.Int.{ℤ, pos, negsuc}
use relay_x.Text.{Text, Bytes, str}
use relay_x.Text.Decimal.{show_int}
use relay_x.Text.Unicode.{Unicode}
use relay_x.Text.Split.{has_char, starts_with}
use relay_x.Text.Lines.{join_lines}
use relay_x.Keys.Base64.{b64encode, token_urlsafe}
use relay_x.Errors.{Result, ok, ◌>>=◌, ◌>>◌, raise_if, value_error}
use relay_x.Models.{is_empty}

pub record SecretBundle : Type 0 where
  pub auth_token : Text
  pub encryption_key : Text

-- generate_secrets, of the random bytes that secrets.token_urlsafe and secrets.token_bytes draw
unfoldable pub generate_secrets : Bytes → Bytes → SecretBundle
generate_secrets token_bytes key_bytes = record {
  auth_token = token_urlsafe token_bytes;
  encryption_key = b64encode key_bytes;
}

abbrev pub is_lower : ℕ → Bool
is_lower c = leb b'a' c && leb c b'z'

abbrev pub is_upper : ℕ → Bool
is_upper c = leb b'A' c && leb c b'Z'

abbrev pub is_digit : ℕ → Bool
is_digit c = leb b'0' c && leb c b'9'

-- [A-Za-z0-9_.@-]
abbrev pub is_name_char : ℕ → Bool
is_name_char c = is_lower c || (is_upper c || (is_digit c || has_char c (str "_.@-")))

-- _SAFE_NAME_RE.fullmatch(value)
abbrev pub is_safe_name : Text → Bool
is_safe_name value = all is_name_char value && (leb 1 (length value) && leb (length value) 64)

-- [a-z0-9_-]
abbrev pub is_account_char : ℕ → Bool
is_account_char c = is_lower c || (is_digit c || has_char c (str "_-"))

-- _SAFE_ACCOUNT_RE.fullmatch(value)
abbrev pub is_safe_account : Text → Bool
is_safe_account [] = false
is_safe_account (c ∷ s) = (is_lower c || c == b'_') && (all is_account_char s && leb (length s) 31)

unfoldable pub validate_service_name : Text → Result Text
validate_service_name value = do
  raise_if (not (is_safe_name value) || starts_with (str "-") value) value_error
  ok value

unfoldable pub validate_account_name : Text → Result Text
validate_account_name value = do raise_if (not (is_safe_account value)) value_error; ok value

-- relayx is what which("relayx") finds
unfoldable pub relayx_exec_start : Option Text → Text → Text
relayx_exec_start none executable = executable ++ str " -m relayx.cli server"
relayx_exec_start (some relayx) executable =
    if is_empty relayx then executable ++ str " -m relayx.cli server" else relayx ++ str " server"

-- value or default
abbrev pub text_or : Option Text → Text → Text
text_or none default = default
text_or (some value) default = if is_empty value then default else value

-- The secrets that env_template writes; `generated` is used only if secrets are to be generated.
abbrev pub with_generated : Bool → SecretBundle → Option Text → Option Text → Text × Text
with_generated generate generated auth_token encryption_key =
    if generate
    then (text_or auth_token generated.auth_token, text_or encryption_key generated.encryption_key)
    else (text_or auth_token [], text_or encryption_key [])

unfoldable pub env_template :
    Unicode → SecretBundle → Text → ℤ → Option Text → Option Text → Text → Bool → Text
env_template u generated server_host server_port auth_token encryption_key log_level generate =
    let (token, key) = with_generated generate generated auth_token encryption_key in
    let token' = text_or (some token) (str "change-me-generate-with-relayx-generate-secret") in
    let key' = text_or (some key) (str "change-me-base64-32-byte-key") in
    join_lines (
      str "# RelayX production environment file"
      ∷ (str "RELAYX_AUTH_TOKEN=" ++ token')
      ∷ (str "RELAYX_ENCRYPTION_KEY=" ++ key')
      ∷ str "RELAYX_RELAY_URL=http://127.0.0.1:8000/relay"
      ∷ str "RELAYX_PROXY_HOST=127.0.0.1"
      ∷ str "RELAYX_PROXY_PORT=8080"
      ∷ (str "RELAYX_SERVER_HOST=" ++ server_host)
      ∷ (str "RELAYX_SERVER_PORT=" ++ show_int server_port)
      ∷ str "RELAYX_REPLAY_WINDOW_SECONDS=300"
      ∷ str "RELAYX_ALLOWED_CLOCK_SKEW_SECONDS=30"
      ∷ str "RELAYX_REPLAY_CACHE_MAX_ENTRIES=1000000"
      ∷ str "RELAYX_COMPRESSION_ENABLED=true"
      ∷ str "RELAYX_COMPRESSION_THRESHOLD_BYTES=1024"
      ∷ str "RELAYX_MAX_DECOMPRESSED_BYTES=134217728"
      ∷ str "RELAYX_MAX_CARRIER_BODY_BYTES=134217728"
      ∷ str "RELAYX_MAX_REQUEST_BODY_BYTES=16777216"
      ∷ str "RELAYX_MAX_RESPONSE_BODY_BYTES=67108864"
      ∷ str "RELAYX_MAX_HEADER_BYTES=65536"
      ∷ str "RELAYX_TIMEOUT_SECONDS=30.0"
      ∷ (str "RELAYX_LOG_LEVEL=" ++ u.upper log_level)
      ∷ []
      ∷ [])

-- The keyword arguments of systemd_unit.
pub record UnitOptions : Type 0 where
  pub service_name : Text
  pub user : Text
  pub group : Text
  pub host : Option Text
  pub port : Option ℤ
  pub config : Option Text
  pub auth_token : Option Text
  pub encryption_key : Option Text
  pub working_directory : Text
  pub environment_file : Option Text
  pub memory_max : Option Text

-- `if value:` and the prefix in front of it
abbrev pub part : Text → Option Text → List Text
part prefix none = []
part prefix (some value) = if is_empty value then [] else (prefix ++ value) ∷ []

abbrev pub port_part : Option ℤ → List Text
port_part none = []
port_part (some (pos zero)) = []
port_part (some port) = (str "RELAYX_SERVER_PORT=" ++ show_int port) ∷ []

abbrev pub env_parts : UnitOptions → List Text
env_parts o =
    part (str "RELAYX_SERVER_HOST=") o.host
    ++ (port_part o.port
        ++ (part (str "RELAYX_CONFIG=") o.config
            ++ (part (str "RELAYX_AUTH_TOKEN=") o.auth_token
                ++ part (str "RELAYX_ENCRYPTION_KEY=") o.encryption_key)))

-- '" "'.join(parts)
unfoldable pub join_quoted : List Text → Text
join_quoted [] = []
join_quoted (p ∷ []) = p
join_quoted (p ∷ q ∷ parts) = p ++ (34 ∷ 32 ∷ 34 ∷ join_quoted (q ∷ parts))

abbrev pub env_line : List Text → List Text
env_line [] = []
env_line (p ∷ parts) = (str "Environment=" ++ (34 ∷ (join_quoted (p ∷ parts) ++ 34 ∷ []))) ∷ []

unfoldable pub unit_lines : UnitOptions → Text → List Text
unit_lines o exec_start =
    (str "[Unit]"
      ∷ (str "Description=RelayX encrypted HTTP relay (" ++ (o.service_name ++ str ")"))
      ∷ str "After=network-online.target"
      ∷ str "Wants=network-online.target"
      ∷ []
      ∷ str "[Service]"
      ∷ str "Type=simple"
      ∷ (str "User=" ++ o.user)
      ∷ (str "Group=" ++ o.group)
      ∷ (str "WorkingDirectory=" ++ o.working_directory)
      ∷ [])
    ++ (part (str "EnvironmentFile=-") o.environment_file
        ++ (env_line (env_parts o)
            ++ ((str "ExecStart=" ++ exec_start)
                ∷ str "Restart=on-failure"
                ∷ str "RestartSec=5s"
                ∷ str "NoNewPrivileges=true"
                ∷ str "PrivateTmp=true"
                ∷ str "ProtectSystem=strict"
                ∷ str "ProtectHome=true"
                ∷ (str "ReadWritePaths=" ++ o.working_directory)
                ∷ str "ReadOnlyPaths=/etc/relayx"
                ∷ (str "RuntimeDirectory=" ++ o.service_name)
                ∷ str "RuntimeDirectoryMode=0750"
                ∷ str "LimitNOFILE=65536"
                ∷ (part (str "MemoryMax=") o.memory_max
                    ++ (str "TasksMax=512"
                        ∷ str "CapabilityBoundingSet="
                        ∷ str "LockPersonality=true"
                        ∷ str "MemoryDenyWriteExecute=true"
                        ∷ str "RestrictRealtime=true"
                        ∷ str "SystemCallArchitectures=native"
                        ∷ []
                        ∷ str "[Install]"
                        ∷ str "WantedBy=multi-user.target"
                        ∷ []
                        ∷ [])))))

-- systemd_unit; `exec_start` is what _relayx_exec_start gives.
unfoldable pub systemd_unit : UnitOptions → Text → Result Text
systemd_unit o exec_start = do
  name ← validate_service_name o.service_name
  user ← validate_account_name o.user
  group ← validate_account_name o.group
  ok (join_lines (unit_lines o exec_start))
