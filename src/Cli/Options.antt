-- ===== src/Cli/Options.antt =====
-- relayx/cli.py: the commands and their options, as build_parser's argparse has parsed them, and the
-- surroundings of a run.
use relay_x.Prelude.{ℕ, Bool, Option}
use relay_x.Prelude.Int.{ℤ}
use relay_x.Text.{Text, Bytes}
use relay_x.Text.Unicode.{Unicode}
use relay_x.Config.{RelaySettings}
use relay_x.App.{AppState}
use relay_x.Ops.{UnitOptions}
use relay_x.Ops.Machine.{World, M}
use relay_x.Ops.Doctor.{Platform}

-- The options of `config init`; an option that was not given is `none`.
pub record InitOptions : Type 0 where
  pub output : Text
  pub host : Option Text
  pub port : Option ℤ
  pub auth_token : Option Text
  pub encryption_key : Option Text
  pub log_level : Option Text
  pub generate_secrets : Bool
  pub interactive : Bool
  pub force : Bool
  pub dry_run : Bool

-- The options of `install service`.
pub record InstallArgs : Type 0 where
  pub unit : UnitOptions
  pub unit_dir : Text
  pub create_user : Bool
  pub start : Bool
  pub dry_run : Bool

-- The options of `uninstall service`.
pub record UninstallArgs : Type 0 where
  pub service_name : Text
  pub unit_dir : Text
  pub environment_file : Text
  pub working_directory : Text
  pub purge : Bool
  pub dry_run : Bool

-- A parsed command line. `init` has its output, host and port, --force and --dry-run.
pub data Command : Type 0 where
  no_command generate_secret version : Command
  server client show validate doctor_command : Option Text → Command
  init : Text → Text → ℤ → Bool → Bool → Command
  config_init : InitOptions → Command
  install : InstallArgs → Command
  uninstall : UninstallArgs → Command
  service : Text → Text → Command

-- The surroundings: the machine's programs, the platform, the Unicode tables, repr of a float, what
-- relayx_exec_start gives, the random bytes, and the servers.
pub record Surroundings : Type 0 where
  pub world : World
  pub platform : Platform
  pub unicode : Unicode
  pub float_repr : ℕ → Text
  pub exec_start : Text
  pub token_bytes : Bytes
  pub key_bytes : Bytes
  pub run_server : RelaySettings → AppState → M (Unit {0})
  pub run_client : RelaySettings → Bytes → M (Unit {0})
