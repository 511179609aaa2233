-- ===== src/Cli/Exits.antt =====
-- How main ends.
use relay_x.Prelude.{false, ◌≡◌, refl, Option, some}
use relay_x.Prelude.Int.{ℤ, pos}
use relay_x.Text.{Text}
use relay_x.Errors.{err, config_error}
use relay_x.Keys.{decode_encryption_key}
use relay_x.Config.{RelaySettings, encryption_key_bytes}
use relay_x.App.{create_app}
use relay_x.Ops.Machine.{Entry, Machine, lookup, print, configure}
use relay_x.Logging.{configure_logging}
use relay_x.Ops.EnvFile.{write_env_file}
use relay_x.Ops.Doctor.{validate_file}
use relay_x.Cli.{
  Surroundings, init, server, validate, given, settings_from_args, put_file, init_command,
  run_server_command, validate_command, run_command, exited, traceback, main,
}

-- `init` over an existing file, without --force, ends with a traceback and changes nothing.
pub main_init_existing :
    (c : Surroundings) (output host : Text) (port : ℤ) (s : Machine) {e : Entry}
    → lookup output s ≡ some e
    → main c (init output host port false false) s ≡ (traceback, s)
unfolding main run_command init_command put_file write_env_file
main_init_existing c output host port s e = rw e refl

-- The exit status of `config validate`, and what it leaves of the files.
main_validate :
    (c : Surroundings) (config : Option Text) (s : Machine) (settings : RelaySettings)
    (message : Text)
    → c.platform.load_settings (given config) s ≡ (some settings, message)
    → (main c (validate config) s).0 ≡ exited (pos 0)
unfolding main run_command validate_command validate_file print
main_validate c config s settings message loads = rw loads refl

-- The machine after the logging was set up.
abbrev pub configured : Surroundings → RelaySettings → Machine → Machine
configured c settings s = record s {
  logger = configure_logging c.unicode settings.log_level s.logger;
}

main_server :
    (c : Surroundings) (config : Option Text) (s : Machine) (settings : RelaySettings)
    (message : Text)
    → c.platform.load_settings (given config) s ≡ (some settings, message)
    → decode_encryption_key settings.encryption_key ≡ err config_error
    → main c (server config) s ≡ (traceback, configured c settings s)
unfolding main run_command run_server_command settings_from_args configure create_app
    encryption_key_bytes
main_server c config s settings message loads key = rw (loads, key) refl

-- For settings that load but whose encryption key decode_encryption_key refuses with ConfigError,
-- `config validate` exits with status 0, and `server` ends with a traceback after it set up the
-- logging.
pub main_unusable_key :
    (c : Surroundings) (config : Option Text) (s : Machine) (settings : RelaySettings)
    (message : Text)
    → c.platform.load_settings (given config) s ≡ (some settings, message)
    → decode_encryption_key settings.encryption_key ≡ err config_error
    → ((main c (validate config) s).0 ≡ exited (pos 0))
      × (main c (server config) s ≡ (traceback, configured c settings s))
main_unusable_key c config s settings message loads key = (
  main_validate c config s settings message loads,
  main_server c config s settings message loads key,
)
