-- ===== src/Cli.antt =====
-- relayx/cli.py, from the arguments as argparse has parsed them on: the commands, and main.
-- What the servers do once they run is an argument.
pub mod Options
pub mod Show
pub mod DryRun
pub mod Exits
mod Tests
unfoldable pub use Options.*
use relay_x.Prelude.{
  ℕ, zero, List, [], ◌∷◌, ◌++◌, map, Bool, true, false, not, ◌&&◌, ◌||◌, Option, some, none,
  if◌then◌else◌,
}
use relay_x.Prelude.Int.{ℤ, pos, negsuc}
use relay_x.Text.{Text, Bytes, str}
use relay_x.Text.Unicode.{Unicode}
use relay_x.Text.Decimal.{show_int}
use relay_x.Text.Number.{parse_int}
use relay_x.Text.Split.{strip, has_text}
use relay_x.Errors.{Result, ok, err, value_error, unicode_error, file_not_found, system_exit}
use relay_x.Models.{is_empty}
use relay_x.Config.{RelaySettings, encryption_key_bytes}
use relay_x.App.{AppState, create_app}
use relay_x.Ops.{SecretBundle, UnitOptions, generate_secrets, env_template, text_or, systemd_unit}
use relay_x.Ops.Machine.{
  Machine, World, M, ◌>>=◌, ◌>>◌, lift, pure, print, print_all, input, configure,
}
use relay_x.Ops.EnvFile.{write_env_file}
use relay_x.Ops.Service.{
  InstallOptions, UninstallOptions, install_service, uninstall_service, service_action,
}
use relay_x.Ops.Doctor.{Platform, Check, doctor, validate_file, version_info}

-- `if value:` of an option
abbrev pub given : Option Text → Option Text
given none = none
given (some value) = if is_empty value then none else some value

abbrev pub loaded : Option RelaySettings × Text → Result RelaySettings
loaded (some settings, message) = ok settings
loaded (none, message) = err value_error

-- `given or (input(prompt).strip() or default if interactive else default)`
unfoldable pub ask : Option Text → Bool → Text → Text → M Text
ask value interactive prompt default = elim (given value) [
  | some text ↦ pure text
  | none ↦ elim interactive [
    | true ↦ (do answer ← input prompt; pure (text_or (some (strip answer)) default))
    | false ↦ pure default
  ]
]

abbrev pub given_port : Option ℤ → Option ℤ
given_port none = none
given_port (some (pos zero)) = none
given_port (some port) = some port

unfoldable pub ask_port : Unicode → Option ℤ → Bool → M ℤ
ask_port u value interactive = elim (given_port value) [
  | some port ↦ pure port
  | none ↦ elim interactive [
    | true ↦ (do
      answer ← input (str "Port [8000]: ")
      lift (parse_int u (text_or (some (strip answer)) (str "8000"))))
    | false ↦ pure (pos 8000)
  ]
]

-- The secrets that `config init` asks for.
unfoldable pub ask_secret : Option Text → Bool → Text → M (Option Text)
ask_secret value false prompt = pure value
ask_secret value true prompt = do text ← ask value true prompt []; pure (some text)

-- RELAYX_FIELD=value, with a secret masked
abbrev pub show_field : Unicode → Text × Text → Text
show_field u (key, value) =
    str "RELAYX_"
    ++ (u.upper key
        ++ (b'='
            ∷ (if has_text (str "token") key || has_text (str "key") key
                then str "********"
                else value)))

abbrev pub show_bool : Bool → Text
show_bool true = str "True"
show_bool false = str "False"

-- settings.model_dump(), with the values as f-strings print them
abbrev pub model_dump : (ℕ → Text) → RelaySettings → List (Text × Text)
model_dump float_repr s =
    (str "auth_token", s.auth_token)
    ∷ (str "encryption_key", s.encryption_key)
    ∷ (str "relay_url", s.relay_url)
    ∷ (str "proxy_host", s.proxy_host)
    ∷ (str "proxy_port", show_int s.proxy_port)
    ∷ (str "server_host", s.server_host)
    ∷ (str "server_port", show_int s.server_port)
    ∷ (str "replay_window_seconds", show_int s.replay_window_seconds)
    ∷ (str "allowed_clock_skew_seconds", show_int s.allowed_clock_skew_seconds)
    ∷ (str "replay_cache_max_entries", show_int s.replay_cache_max_entries)
    ∷ (str "compression_enabled", show_bool s.compression_enabled)
    ∷ (str "compression_threshold_bytes", show_int s.compression_threshold_bytes)
    ∷ (str "max_decompressed_bytes", show_int s.max_decompressed_bytes)
    ∷ (str "max_carrier_body_bytes", show_int s.max_carrier_body_bytes)
    ∷ (str "max_request_body_bytes", show_int s.max_request_body_bytes)
    ∷ (str "max_response_body_bytes", show_int s.max_response_body_bytes)
    ∷ (str "max_header_bytes", show_int s.max_header_bytes)
    ∷ (str "timeout_seconds", float_repr s.timeout_seconds)
    ∷ (str "log_level", s.log_level)
    ∷ []

-- The lines of _cmd_config_show.
unfoldable pub show_lines : Unicode → (ℕ → Text) → RelaySettings → List Text
show_lines u float_repr s = map (show_field u) (model_dump float_repr s)

abbrev pub removal : UninstallArgs → UninstallOptions
removal a = record {
  service_name = a.service_name;
  unit_dir = a.unit_dir;
  purge_paths = a.environment_file ∷ a.working_directory ∷ [];
  purge = a.purge;
  dry_run = a.dry_run;
}

module _ (c : Surroundings) where
  unfoldable pub settings_from_args : Option Text → M RelaySettings
  settings_from_args config s = (loaded (c.platform.load_settings (given config) s), s)

  -- _run_server; create_app sets up the logging once more, at the same level.
  unfoldable pub run_server_command : Option Text → M (Unit {0})
  run_server_command config = do
    settings ← settings_from_args config
    configure c.unicode settings.log_level
    app ← lift (create_app settings)
    c.run_server settings app

  -- _run_client_cmd; create_proxy makes a RelayClient, which needs the key.
  unfoldable pub run_client_command : Option Text → M (Unit {0})
  run_client_command config = do
    settings ← settings_from_args config
    configure c.unicode settings.log_level
    key ← lift (encryption_key_bytes settings)
    c.run_client settings key

  abbrev pub generated : SecretBundle
  generated = generate_secrets c.token_bytes c.key_bytes

  -- _cmd_generate_secret
  unfoldable pub generate_secret_command : M (Unit {0})
  generate_secret_command = print_all (
      str "Auth Token:"
      ∷ generated.auth_token
      ∷ (10 ∷ str "Encryption Key:")
      ∷ generated.encryption_key
      ∷ [])

  -- The end of _cmd_config_init and of _cmd_init: print the file, or write it.
  unfoldable pub put_file : Text → Text → Bool → Bool → M (Unit {0})
  put_file output content force true = print content
  put_file output content force false = do
    write_env_file c.world output content force
    print (str "Wrote " ++ output)

  -- _cmd_config_init
  unfoldable pub config_init_command : InitOptions → M (Unit {0})
  config_init_command o = do
    host ← ask o.host o.interactive (str "Bind address [127.0.0.1]: ") (str "127.0.0.1")
    port ← ask_port c.unicode o.port o.interactive
    let secrets = o.interactive && not o.generate_secrets
    auth_token ← ask_secret o.auth_token secrets (str "Auth token: ")
    encryption_key ← ask_secret o.encryption_key secrets (str "Encryption key (base64 32 bytes): ")
    log_level ← ask o.log_level o.interactive (str "Log level [INFO]: ") (str "INFO")
    put_file o.output
        (env_template c.unicode generated host port auth_token encryption_key log_level
          o.generate_secrets)
        o.force o.dry_run

  -- _cmd_config_show
  unfoldable pub show_command : Option Text → M (Unit {0})
  show_command config = do
    settings ← settings_from_args config
    print_all (show_lines c.unicode c.float_repr settings)

  -- _cmd_config_validate
  unfoldable pub validate_command : Option Text → M (Unit {0})
  validate_command config = do
    (valid, message) ← validate_file c.platform (given config)
    print ((if valid then str "PASS" else str "ERROR") ++ (str ": " ++ message))
    lift (err (system_exit (if valid then pos 0 else pos 1)))

  abbrev pub install_options : InstallArgs → Text → InstallOptions
  install_options a unit_text = record {
    unit_text = unit_text;
    service_name = a.unit.service_name;
    user = a.unit.user;
    group = a.unit.group;
    working_directory = a.unit.working_directory;
    unit_dir = a.unit_dir;
    create_user = a.create_user;
    start = a.start;
    dry_run = a.dry_run;
  }

  -- _cmd_install_service
  unfoldable pub install_command : InstallArgs → M (Unit {0})
  install_command a = do
    unit ← lift (systemd_unit a.unit c.exec_start)
    actions ← install_service c.world (install_options a unit)
    print_all actions

  -- _cmd_uninstall_service
  unfoldable pub uninstall_command : UninstallArgs → M (Unit {0})
  uninstall_command a = do actions ← uninstall_service c.world (removal a); print_all actions

  -- _cmd_service
  unfoldable pub service_command : Text → Text → M (Unit {0})
  service_command service_name action = do
    status ← service_action c.world service_name action
    lift (err (system_exit status))

  abbrev pub check_line : Check → Text
  check_line k = k.status ++ (str ": " ++ (k.name ++ (str " - " ++ k.detail)))

  -- _cmd_doctor
  unfoldable pub doctor_lines : Option Text → M (Unit {0})
  doctor_lines config = do
    checks ← doctor c.world c.platform (given config)
    print_all (map check_line checks)

  -- _cmd_init
  unfoldable pub init_command : Text → Text → ℤ → Bool → Bool → M (Unit {0})
  init_command output host port force dry_run = do
    put_file output (env_template c.unicode generated host port none none (str "INFO") true) force
        dry_run
    print_all (
        str "Next steps:"
        ∷ (str "  relayx config validate --config " ++ output)
        ∷ (str "  relayx server --config " ++ output)
        ∷ (str "  relayx install service --environment-file " ++ (output ++ str " --start"))
        ∷ [])

  -- args.func(args); without a command, main exits with status 2.
  unfoldable pub run_command : Command → M (Unit {0})
  run_command no_command = lift (err (system_exit (pos 2)))
  run_command generate_secret = generate_secret_command
  run_command version = print (version_info c.world c.platform)
  run_command (server config) = run_server_command config
  run_command (client config) = run_client_command config
  run_command (show config) = show_command config
  run_command (validate config) = validate_command config
  run_command (doctor_command config) = doctor_lines config
  run_command (init output host port force dry_run) = init_command output host port force dry_run
  run_command (config_init o) = config_init_command o
  run_command (install a) = install_command a
  run_command (uninstall a) = uninstall_command a
  run_command (service service_name action) = service_command service_name action

-- How the process ends: with an exit status, after a message of main's or none; or with the
-- traceback of an exception that main does not catch.
pub data Ending : Type 0 where
  finished : Ending
  exited : ℤ → Ending
  reported : ℤ → Ending
  traceback : Ending

abbrev pub ending : Result (Unit {0}) → Ending
ending (ok done) = finished
ending (err (system_exit status)) = exited status
ending (err value_error) = reported (pos 2)
ending (err unicode_error) = reported (pos 2)
ending (err file_not_found) = reported (pos 1)
ending (err other) = traceback

-- main
unfoldable pub main : Surroundings → Command → Machine → Ending × Machine
main c command s = let (r, t) = run_command c command s in (ending r, t)
