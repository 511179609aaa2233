-- ===== src/Cli/Tests.antt =====
-- The commands on a machine with an installed service.
use relay_x.Ops.Paths.{absolute, is_fixed, ancestors, is_below, join_path}
use relay_x.Prelude.{All, ◌⊎◌, List, [], ◌∷◌, ◌≡◌, refl, true, false, some, none, arith}
use relay_x.Prelude.Int.{pos}
use relay_x.Text.{Text, str}
use relay_x.Text.Equality.{text_eq, one_of}
use relay_x.Text.Split.{starts_with, split_at}
use relay_x.Errors.{Exn, ok, err, config_error, os_error}
use relay_x.Samples.{
  unicode, machine, world, weak_settings, surroundings, uninstall_options, unit_path, env_path,
  token_bytes, key_bytes,
}
use relay_x.Keys.{decode_encryption_key}
use relay_x.Keys.Base64.{sextet, b64encode, b64decode, token_urlsafe}
use relay_x.Ops.{validate_service_name}
use relay_x.Ops.Machine.{
  Machine, lookup, remove_tree, without, make_directory, make_directories, write_text, chmod,
  unlink, run, check_run,
}
use relay_x.Ops.EnvFile.{Values, get, write_env_file, read_env_values}
use relay_x.Ops.Service.{
  join_words, service_unit_name, resolve_executable, run_commands, unlink_if_there, remove_entry,
  purge_all, uninstall_service,
}
use relay_x.Ops.DryRun.{dry_uninstall, uninstall_service_predicted}
use relay_x.Ops.Keeps.{spares}
use relay_x.Ops.Uninstall.{unit_file, targets, uninstall_service_keeps}
use relay_x.Ops.Init.{init_content, read_env_values-write_env_file}
use relay_x.Cli.{UninstallArgs, uninstall, validate, server, exited, traceback, main}
use relay_x.Cli.DryRun.{main_dry}
use relay_x.Cli.Exits.{configured, main_unusable_key}

abbrev content : Text
content = init_content unicode token_bytes key_bytes (str "127.0.0.1") (pos 8000) (str "INFO")

abbrev after_init : Machine
after_init = (write_env_file world env_path content false machine).1

initialised : write_env_file world env_path content false machine ≡ (ok tt, after_init)
unfolding write_env_file ancestors starts_with make_directories make_directory write_text chmod
    text_eq one_of absolute split_at
initialised = refl

read_env_values-write_env_file_example :
    (values : Values) × (read_env_values (some env_path) after_init ≡ (ok values, after_init))
    × (get (str "RELAYX_AUTH_TOKEN") values ≡ some (token_urlsafe token_bytes))
    × (get (str "RELAYX_ENCRYPTION_KEY") values ≡ some (b64encode key_bytes))
    × (decode_encryption_key (b64encode key_bytes) ≡ ok key_bytes)
read_env_values-write_env_file_example =
    read_env_values-write_env_file world unicode env_path (str "127.0.0.1") (str "INFO") (pos 8000)
      false token_bytes key_bytes machine after_init (omega arith) (omega arith) refl refl refl refl
      initialised

abbrev after_uninstall : Machine
after_uninstall = (uninstall_service world uninstall_options machine).1

abbrev actions : List Text
actions =
    str "/usr/bin/systemctl stop relayx.service"
    ∷ str "/usr/bin/systemctl disable relayx.service"
    ∷ str "remove /etc/systemd/system/relayx.service"
    ∷ str "/usr/bin/systemctl daemon-reload"
    ∷ str "purge /etc/relayx/relayx.env"
    ∷ str "purge /var/lib/relayx"
    ∷ []

uninstalled : uninstall_service world uninstall_options machine ≡ (ok actions, after_uninstall)
unfolding uninstall_service validate_service_name service_unit_name resolve_executable run_commands
    check_run run unlink_if_there unlink purge_all remove_entry starts_with text_eq one_of absolute
    split_at join_words join_path
uninstalled = refl

uninstall_service_predicted_example :
    uninstall_service world (dry_uninstall uninstall_options) machine ≡ (ok actions, machine)
uninstall_service_predicted_example =
    uninstall_service_predicted world uninstall_options machine after_uninstall actions uninstalled

removed : after_uninstall.entries unit_path ≡ none
unfolding uninstall_service validate_service_name service_unit_name resolve_executable run_commands
    check_run run unlink_if_there unlink purge_all remove_entry starts_with text_eq one_of absolute
    split_at join_words join_path
removed = refl

-- A purge of the working directory, under its shorter name, empties it and then fails.
removed_here :
    remove_tree world (str ".") (record machine { cwd = str "/etc/relayx/../systemd" }) ≡ (
      err os_error,
      without
          (is_below (str "/etc/systemd"))
          (record machine { cwd = str "/etc/relayx/../systemd" }),
    )
unfolding remove_tree absolute split_at is_fixed text_eq one_of
removed_here = refl

below_here : is_below (str "/etc/systemd") unit_path ≡ true
unfolding is_below text_eq starts_with
below_here = refl

other_path :
    text_eq
      (absolute machine.cwd (str "../etc/relayx"))
      (absolute machine.cwd (unit_file uninstall_options))
    ≡ false
unfolding text_eq join_path absolute split_at
other_path = refl

spared :
    spares machine.cwd (absolute machine.cwd (str "../etc/relayx")) uninstall_options.purge_paths
    ≡ true
unfolding text_eq is_below starts_with absolute split_at
spared = refl

uninstall_service_keeps_example :
    (lookup (str "../etc/relayx") after_uninstall ≡ lookup (str "../etc/relayx") machine)
    × (((e : Exn) × ((uninstall_service world uninstall_options machine).0 ≡ err e))
        ⊎ ((false ≡ true) ⊎ All (λ q. lookup q after_uninstall ≡ none) (targets uninstall_options)))
uninstall_service_keeps_example =
    uninstall_service_keeps world uninstall_options (str "../etc/relayx") machine other_path
      (λ purge. spared)

abbrev dry_args : UninstallArgs
dry_args = record {
  service_name = str "relayx";
  unit_dir = str "/etc/systemd/system";
  environment_file = env_path;
  working_directory = str "/var/lib/relayx";
  purge = true;
  dry_run = true;
}

main_dry_example :
    ((main surroundings (uninstall dry_args) machine).1.entries ≡ machine.entries)
    × ((main surroundings (uninstall dry_args) machine).1.commands ≡ [])
main_dry_example = main_dry surroundings (uninstall dry_args) machine refl

no_base64 : decode_encryption_key weak_settings.encryption_key ≡ err config_error
unfolding decode_encryption_key b64decode sextet
no_base64 = refl

main_unusable_key_example :
    ((main surroundings (validate none) machine).0 ≡ exited (pos 0))
    × (main surroundings (server none) machine
        ≡ (traceback, configured surroundings weak_settings machine))
main_unusable_key_example =
    main_unusable_key surroundings none machine weak_settings [] refl no_base64
