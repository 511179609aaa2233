-- ===== src/Samples/Surroundings.antt =====
-- A machine with an installed service, and what stands around the program on it.
use relay_x.Prelude.{[], ◌∷◌, ◌++◌, true, false, Option, some, none, if◌then◌else◌, replicate}
use relay_x.Prelude.Int.{pos}
use relay_x.Text.{Text, Bytes, str}
use relay_x.Text.Equality.{text_eq, one_of}
use relay_x.Config.{RelaySettings}
use relay_x.Ops.{UnitOptions}
use relay_x.Ops.Machine.{Entry, directory, file, Machine, World, pure}
use relay_x.Ops.Doctor.{Platform}
use relay_x.Ops.Service.{UninstallOptions}
use relay_x.Cli.{Surroundings}
use relay_x.Samples.Library.{unicode}
use relay_x.Samples.Defaults.{default_settings}

abbrev pub unit_path : Text
unit_path = str "/etc/systemd/system/relayx.service"

abbrev pub env_path : Text
env_path = str "/etc/relayx/relayx.env"

abbrev pub entry_of : Text → Option Entry
entry_of path =
    if text_eq path unit_path
    then some (file (str "[Unit]") 420)
    else if one_of path (
        str "/"
        ∷ str "/etc"
        ∷ str "/etc/relayx"
        ∷ str "/etc/systemd"
        ∷ str "/etc/systemd/system"
        ∷ [])
    then some directory
    else none

abbrev pub machine : Machine
machine = record {
  cwd = str "/root";
  entries = entry_of;
  commands = [];
  printed = [];
  answers = [];
  logger = record { only_json = false; level = 30 };
}

abbrev pub world : World
world = record {
  which = λ name. some (str "/usr/bin/" ++ name);
  status = λ commands command. pos 0;
  may_change = λ path. true;
  may_chmod = λ path. true;
  new_mode = 420;
}

abbrev pub weak_settings : RelaySettings
weak_settings = record default_settings { encryption_key = str "change-me-base64-32-byte-key" }

abbrev pub platform : Platform
platform = record {
  python_is_new = true;
  python_version = str "3.12.4";
  openssl_version = str "OpenSSL 3.0.13";
  platform = str "Linux";
  relayx_version = str "1.0.0";
  package_version = λ name. some (str "1.0");
  environ = λ name. none;
  cwd = str "/root";
  cwd_is_writable = true;
  git_commit = none;
  load_settings = λ path s. (some weak_settings, []);
  key_message = λ key. str "RELAYX_ENCRYPTION_KEY must be base64";
}

abbrev pub token_bytes : Bytes
token_bytes = replicate 48 7

abbrev pub key_bytes : Bytes
key_bytes = replicate 32 9

abbrev pub surroundings : Surroundings
surroundings = record {
  world = world;
  platform = platform;
  unicode = unicode;
  float_repr = λ bits. str "30.0";
  exec_start = str "/usr/bin/relayx server";
  token_bytes = token_bytes;
  key_bytes = key_bytes;
  run_server = λ settings app. pure tt;
  run_client = λ settings key. pure tt;
}

abbrev pub unit_options : UnitOptions
unit_options = record {
  service_name = str "relayx";
  user = str "relayx";
  group = str "relayx";
  host = none;
  port = none;
  config = none;
  auth_token = none;
  encryption_key = none;
  working_directory = str "/var/lib/relayx";
  environment_file = some env_path;
  memory_max = none;
}

abbrev pub uninstall_options : UninstallOptions
uninstall_options = record {
  service_name = str "relayx";
  unit_dir = str "/etc/systemd/system";
  purge_paths = env_path ∷ str "/var/lib/relayx" ∷ [];
  purge = true;
  dry_run = false;
}
