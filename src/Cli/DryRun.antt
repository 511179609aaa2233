-- ===== src/Cli/DryRun.antt =====
-- About the commands with --dry-run.
use relay_x.Prelude.{List, [], ◌∷◌, Bool, true, false, ◌≡◌, refl, ap, ◌∙◌, Option, some, none}
use relay_x.Prelude.Int.{ℤ, pos}
use relay_x.Text.{Text, str}
use relay_x.Text.Number.{parse_int}
use relay_x.Text.Unicode.{Unicode}
use relay_x.Text.Split.{strip}
use relay_x.Ops.{systemd_unit, text_or}
use relay_x.Ops.Machine.{Machine, World, M, ◌>>=◌, lift, pure, print, print_all, input, next_answer}
use relay_x.Ops.Changes.{Within, Within-bind}
use relay_x.Ops.Service.{InstallOptions, UninstallOptions, install_service, uninstall_service}
use relay_x.Ops.DryRun.{Idle-install_service, Idle-uninstall_service}
use relay_x.Cli.{
  Command, Surroundings, InitOptions, InstallArgs, UninstallArgs, removal, init, config_init,
  install, uninstall, no_command, generate_secret, version, server, client, show, validate,
  doctor_command, service, given, given_port, ask, ask_port, ask_secret, put_file, install_options,
  init_command, config_init_command, install_command, uninstall_command, run_command, main,
}

-- Files and commands stay; lines may be printed and answers read.
abbrev pub Quiet : Machine → Machine → Type 0
Quiet s t = (t.entries ≡ s.entries) × (t.commands ≡ s.commands)

Quiet-chain : (s t u : Machine) → Quiet s t → Quiet t u → Quiet s u
Quiet-chain s t u (h, h') (k, k') = (k ∙ h, k' ∙ h')

Quiet-bind :
    {A B : Type 0} (m : M A) (f : A → M B)
    → Within Quiet m
    → ((a : A) → Within Quiet (f a))
    → Within Quiet (m >>= f)
Quiet-bind m f h k = Within-bind Quiet (λ s. (refl, refl)) Quiet-chain m f h k

Quiet-print : (line : Text) → Within Quiet (print line)
unfolding print
Quiet-print line s = (refl, refl)

Quiet-print_all : (lines : List Text) → Within Quiet (print_all lines)
unfolding print_all
Quiet-print_all [] = λ s. (refl, refl)
Quiet-print_all (line ∷ lines) =
    Quiet-bind (print line) (λ _. print_all lines) (Quiet-print line) (λ _. Quiet-print_all lines)

Quiet-input : (prompt : Text) → Within Quiet (input prompt)
unfolding input
Quiet-input prompt s = from s.answers
  where
    from : (answers : List Text) → Quiet s (next_answer answers s).1
    from [] = (refl, refl)
    from (answer ∷ others) = (refl, refl)

Quiet-ask :
    (value : Option Text) (interactive : Bool) (prompt default : Text)
    → Within Quiet (ask value interactive prompt default)
unfolding ask
Quiet-ask value interactive prompt default = from (given value) interactive
  where
    from :
        (v : Option Text) (b : Bool)
        → Within Quiet (elim v [
          | some text ↦ pure text
          | none ↦ elim b [
            | true ↦ (do answer ← input prompt; pure (text_or (some (strip answer)) default))
            | false ↦ pure default
          ]
        ])
    from (some text) b = λ s. (refl, refl)
    from none true = Quiet-bind (input prompt) _ (Quiet-input prompt) (λ a s. (refl, refl))
    from none false = λ s. (refl, refl)

Quiet-ask_port :
    (u : Unicode) (value : Option ℤ) (interactive : Bool)
    → Within Quiet (ask_port u value interactive)
unfolding ask_port
Quiet-ask_port u value interactive = from (given_port value) interactive
  where
    from :
        (v : Option ℤ) (b : Bool)
        → Within Quiet (elim v [
          | some port ↦ pure port
          | none ↦ elim b [
            | true ↦ (do
              answer ← input (str "Port [8000]: ")
              lift (parse_int u (text_or (some (strip answer)) (str "8000"))))
            | false ↦ pure (pos 8000)
          ]
        ])
    from (some port) b = λ s. (refl, refl)
    from none true = Quiet-bind (input _) _ (Quiet-input _) (λ a s. (refl, refl))
    from none false = λ s. (refl, refl)

Quiet-ask_secret :
    (value : Option Text) (b : Bool) (prompt : Text) → Within Quiet (ask_secret value b prompt)
unfolding ask_secret
Quiet-ask_secret value false prompt = λ s. (refl, refl)
Quiet-ask_secret value true prompt =
    Quiet-bind (ask value true prompt []) _ (Quiet-ask value true prompt [])
      (λ text s. (refl, refl))

Quiet-install_service :
    (w : World) (o : InstallOptions) → o.dry_run ≡ true → Within Quiet (install_service w o)
Quiet-install_service w o dry s =
    let same = ap (λ (b : Bool). (install_service w (record o { dry_run = b }) s).1) dry in
    let idle = same ∙ Idle-install_service w o s in
    (ap (λ (t : Machine). t.entries) idle, ap (λ (t : Machine). t.commands) idle)

Quiet-uninstall_service :
    (w : World) (o : UninstallOptions) → o.dry_run ≡ true → Within Quiet (uninstall_service w o)
Quiet-uninstall_service w o dry s =
    let same = ap (λ (b : Bool). (uninstall_service w (record o { dry_run = b }) s).1) dry in
    let idle = same ∙ Idle-uninstall_service w o s in
    (ap (λ (t : Machine). t.entries) idle, ap (λ (t : Machine). t.commands) idle)

-- Whether a command was given --dry-run.
abbrev pub is_dry : Command → Bool
is_dry (init output host port force dry_run) = dry_run
is_dry (config_init o) = o.dry_run
is_dry (install a) = a.dry_run
is_dry (uninstall a) = a.dry_run
is_dry other = false

module _ (c : Surroundings) where
  Quiet-put_file :
      (output content : Text) (force dry_run : Bool)
      → dry_run ≡ true
      → Within Quiet (put_file c output content force dry_run)
  unfolding put_file
  Quiet-put_file output content force true dry = Quiet-print content
  Quiet-put_file output content force false dry = cc

  Quiet-init :
      (output host : Text) (port : ℤ) (force dry_run : Bool)
      → dry_run ≡ true
      → Within Quiet (init_command c output host port force dry_run)
  unfolding init_command
  Quiet-init output host port force dry_run dry =
      Quiet-bind (put_file c output _ force dry_run) _ (Quiet-put_file output _ force dry_run dry)
        (λ _. Quiet-print_all _)

  Quiet-config_init : (o : InitOptions) → o.dry_run ≡ true → Within Quiet (config_init_command c o)
  unfolding config_init_command
  Quiet-config_init o dry =
      Quiet-bind (ask o.host o.interactive _ _) _ (Quiet-ask o.host o.interactive _ _) (λ host.
        Quiet-bind (ask_port c.unicode o.port o.interactive) _
          (Quiet-ask_port c.unicode o.port o.interactive)
          (λ port.
            Quiet-bind (ask_secret o.auth_token _ _) _ (Quiet-ask_secret o.auth_token _ _)
              (λ auth_token.
                Quiet-bind (ask_secret o.encryption_key _ _) _
                  (Quiet-ask_secret o.encryption_key _ _)
                  (λ encryption_key.
                    Quiet-bind (ask o.log_level o.interactive _ _) _
                      (Quiet-ask o.log_level o.interactive _ _)
                      (λ log_level. Quiet-put_file o.output _ o.force o.dry_run dry)))))

  Quiet-install : (a : InstallArgs) → a.dry_run ≡ true → Within Quiet (install_command c a)
  unfolding install_command
  Quiet-install a dry =
      Quiet-bind (lift (systemd_unit a.unit c.exec_start)) _ (λ s. (refl, refl))
        (λ unit.
          Quiet-bind (install_service c.world (install_options c a unit)) _
            (Quiet-install_service c.world (install_options c a unit) dry)
            (λ actions. Quiet-print_all actions))

  Quiet-uninstall : (a : UninstallArgs) → a.dry_run ≡ true → Within Quiet (uninstall_command c a)
  unfolding uninstall_command
  Quiet-uninstall a dry =
      Quiet-bind (uninstall_service c.world (removal a)) _
        (Quiet-uninstall_service c.world (removal a) dry) (λ actions. Quiet-print_all actions)

  Quiet-run_command :
      (command : Command) → is_dry command ≡ true → Within Quiet (run_command c command)
  unfolding run_command
  Quiet-run_command no_command dry = cc
  Quiet-run_command generate_secret dry = cc
  Quiet-run_command version dry = cc
  Quiet-run_command (server config) dry = cc
  Quiet-run_command (client config) dry = cc
  Quiet-run_command (show config) dry = cc
  Quiet-run_command (validate config) dry = cc
  Quiet-run_command (doctor_command config) dry = cc
  Quiet-run_command (init output host port force dry_run) dry =
      Quiet-init output host port force dry_run dry
  Quiet-run_command (config_init o) dry = Quiet-config_init o dry
  Quiet-run_command (install a) dry = Quiet-install a dry
  Quiet-run_command (uninstall a) dry = Quiet-uninstall a dry
  Quiet-run_command (service service_name action) dry = cc

-- A command with --dry-run (init, config init, install service or uninstall service, with any
-- other options and any answers of the user) changes no file and runs no command, however it ends.
pub main_dry :
    (c : Surroundings) (command : Command) (s : Machine)
    → is_dry command ≡ true
    → ((main c command s).1.entries ≡ s.entries) × ((main c command s).1.commands ≡ s.commands)
unfolding main
main_dry c command s dry = Quiet-run_command c command dry s
