-- ===== src/Ops/Service.antt =====
-- relayx/ops.py: running commands, and installing, removing and controlling the service.
use relay_x.Ops.Paths.{ancestors, join_path}
use relay_x.Prelude.{
  List, [], ◌∷◌, ◌++◌, Bool, true, false, not, ◌||◌, Option, some, none, if◌then◌else◌,
}
use relay_x.Prelude.Int.{ℤ}
use relay_x.Text.{Text, str}
use relay_x.Text.Equality.{one_of}
use relay_x.Errors.{Result, ok, err, raise_if, value_error, file_not_found}
use relay_x.Ops.Machine.{
  Entry, directory, file, World, M, ◌>>=◌, ◌>>◌, lift, pure, unless, lookup, exists,
  make_directories, write_text, unlink, run, is_zero, check_run, remove_tree,
}
use relay_x.Ops.{validate_service_name, validate_account_name}

-- " ".join(words)
unfoldable pub join_words : List Text → Text
join_words [] = []
join_words (word ∷ []) = word
join_words (word ∷ next ∷ words) = word ++ (32 ∷ join_words (next ∷ words))

abbrev pub executable : Option Text → Result Text
executable none = err file_not_found
executable (some path) = ok path

unfoldable pub service_unit_name : Text → Result Text
service_unit_name name = elim (validate_service_name name) [
  | ok safe ↦ ok (safe ++ str ".service")
  | err e ↦ err e
]

-- The arguments of install_service.
pub record InstallOptions : Type 0 where
  pub unit_text : Text
  pub service_name : Text
  pub user : Text
  pub group : Text
  pub working_directory : Text
  pub unit_dir : Text
  pub create_user : Bool
  pub start : Bool
  pub dry_run : Bool

-- The arguments of uninstall_service.
pub record UninstallOptions : Type 0 where
  pub service_name : Text
  pub unit_dir : Text
  pub purge_paths : List Text
  pub purge : Bool
  pub dry_run : Bool

module _ (w : World) where
  unfoldable pub resolve_executable : Text → M Text
  resolve_executable name = lift (executable (w.which name))

  unfoldable pub run_commands : List (List Text) → Bool → M (List Text)
  run_commands [] dry_run = pure []
  run_commands (command ∷ commands) dry_run = do
    unless dry_run (check_run w command)
    rendered ← run_commands commands dry_run
    pure (join_words command ∷ rendered)

  -- Whether `id -u user` succeeds; a dry run does not ask.
  unfoldable pub user_exists : Text → Text → Bool → M Bool
  user_exists id_executable user true = pure false
  user_exists id_executable user false = do
    status ← run w (id_executable ∷ str "-u" ∷ user ∷ [])
    pure (is_zero w status)

  abbrev pub useradd_command : Text → Text → Text → List Text
  useradd_command useradd home user =
      useradd
      ∷ str "--system"
      ∷ str "--home-dir"
      ∷ home
      ∷ str "--shell"
      ∷ str "/usr/sbin/nologin"
      ∷ str "--user-group"
      ∷ user
      ∷ []

  -- The `if create_user:` of install_service: the commands that it puts first.
  unfoldable pub user_commands : InstallOptions → Bool → M (List (List Text))
  user_commands o false = pure []
  user_commands o true = do
    id_executable ← resolve_executable (str "id")
    useradd ← resolve_executable (str "useradd")
    found ← user_exists id_executable o.user o.dry_run
    pure (
        if o.dry_run || not found
        then useradd_command useradd o.working_directory o.user ∷ []
        else [])

  -- The directories and the unit.
  unfoldable pub write_unit : InstallOptions → Text → M (Unit {0})
  write_unit o unit_path = do
    make_directories w (ancestors o.working_directory ++ o.working_directory ∷ [])
    make_directories w (ancestors o.unit_dir ++ o.unit_dir ∷ [])
    write_text w unit_path o.unit_text

  abbrev pub start_commands : Bool → Text → Text → List (List Text)
  start_commands start systemctl unit =
      if start then (systemctl ∷ str "start" ∷ unit ∷ []) ∷ [] else []

  unfoldable pub install_service : InstallOptions → M (List Text)
  install_service o = do
    name ← lift (validate_service_name o.service_name)
    user ← lift (validate_account_name o.user)
    group ← lift (validate_account_name o.group)
    systemctl ← resolve_executable (str "systemctl")
    first ← user_commands o o.create_user
    unit ← lift (service_unit_name name)
    let unit_path = join_path o.unit_dir unit
    unless o.dry_run (write_unit o unit_path)
    rendered ←
        run_commands
          (first
            ++ ((systemctl ∷ str "daemon-reload" ∷ [])
                ∷ (systemctl ∷ str "enable" ∷ unit ∷ [])
                ∷ start_commands o.start systemctl unit))
          o.dry_run
    pure ((str "write " ++ (unit_path ++ (10 ∷ o.unit_text))) ∷ rendered)

  -- `if path.exists(): path.unlink()`
  unfoldable pub unlink_if_there : Text → M (Unit {0})
  unlink_if_there path = do found ← exists path; unless (not found) (unlink w path)

  -- The removal of what a path names.
  unfoldable pub remove_entry : Text → Option Entry → M (Unit {0})
  remove_entry path none = pure tt
  remove_entry path (some directory) = remove_tree w path
  remove_entry path (some (file content mode)) = unlink w path

  abbrev pub entry_at : Text → M (Option Entry)
  entry_at path s = (ok (lookup path s), s)

  -- The loop over purge_paths: the actions that it lists.
  unfoldable pub purge_all : List Text → Bool → M (List Text)
  purge_all [] dry_run = pure []
  purge_all (path ∷ paths) dry_run = do
    found ← entry_at path
    unless dry_run (remove_entry path found)
    actions ← purge_all paths dry_run
    pure ((str "purge " ++ path) ∷ actions)

  abbrev pub purge_if : UninstallOptions → Bool → M (List Text)
  purge_if o false = pure []
  purge_if o true = purge_all o.purge_paths o.dry_run

  unfoldable pub uninstall_service : UninstallOptions → M (List Text)
  uninstall_service o = do
    name ← lift (validate_service_name o.service_name)
    systemctl ← resolve_executable (str "systemctl")
    unit ← lift (service_unit_name name)
    let unit_path = join_path o.unit_dir unit
    stopped ←
        run_commands
          ((systemctl ∷ str "stop" ∷ unit ∷ []) ∷ (systemctl ∷ str "disable" ∷ unit ∷ []) ∷ [])
          o.dry_run
    unless o.dry_run (unlink_if_there unit_path)
    reloaded ← run_commands ((systemctl ∷ str "daemon-reload" ∷ []) ∷ []) o.dry_run
    purged ← purge_if o o.purge
    pure (stopped ++ ((str "remove " ++ unit_path) ∷ (reloaded ++ purged)))

  unfoldable pub service_action : Text → Text → M ℤ
  service_action service_name action = do
    lift (
        raise_if
          (not (one_of action (str "status" ∷ str "restart" ∷ str "stop" ∷ str "start" ∷ [])))
          value_error)
    systemctl ← resolve_executable (str "systemctl")
    unit ← lift (service_unit_name service_name)
    run w (systemctl ∷ action ∷ unit ∷ [])
