-- ===== src/Ops/DryRun.antt =====
-- About dry runs of installing and removing the service.
use relay_x.Ops.Paths.{join_path}
use relay_x.Prelude.{List, [], ◌∷◌, ◌++◌, map, Bool, true, false, ◌≡◌, refl, ap, sym, ◌∙◌}
use relay_x.Text.{Text, str}
use relay_x.Errors.{Result, ok, ok-injective}
use relay_x.Ops.{validate_service_name, validate_account_name}
use relay_x.Ops.Machine.{lookup, Machine, World, M, ◌>>=◌, lift, pure, unless, check_run}
use relay_x.Ops.Changes.{Within, Within-bind, >>=-eq-returned, lift-eq-returned}
use relay_x.Ops.Service.{
  InstallOptions, UninstallOptions, executable, service_unit_name, resolve_executable, join_words,
  run_commands, user_exists, user_commands, install_service, unlink_if_there, remove_entry,
  purge_all, purge_if, uninstall_service,
}

abbrev pub Same : Machine → Machine → Type 0
Same s t = t ≡ s

Same-chain : (s t u : Machine) → Same s t → Same t u → Same s u
Same-chain s t u h k = k ∙ h

-- Code that leaves the machine as it is.
abbrev pub Idle : {A : Type 0} → M A → Type 0
Idle m = Within Same m

Idle-bind :
    {A B : Type 0} (m : M A) (f : A → M B) → Idle m → ((a : A) → Idle (f a)) → Idle (m >>= f)
Idle-bind m f h k = Within-bind Same (λ s. refl) Same-chain m f h k

Idle-run_commands : (w : World) (commands : List (List Text)) → Idle (run_commands w commands true)
unfolding run_commands
Idle-run_commands w [] = λ s. refl
Idle-run_commands w (command ∷ commands) =
    Idle-bind (run_commands w commands true) _ (Idle-run_commands w commands) (λ rendered s. refl)

Idle-purge_all : (w : World) (paths : List Text) → Idle (purge_all w paths true)
unfolding purge_all
Idle-purge_all w [] = λ s. refl
Idle-purge_all w (path ∷ paths) =
    Idle-bind (purge_all w paths true) (λ actions. pure ((str "purge " ++ path) ∷ actions))
      (Idle-purge_all w paths) (λ actions s. refl)

-- The options of a dry run.
abbrev pub dry_install : InstallOptions → InstallOptions
dry_install o = record o { dry_run = true }

abbrev pub dry_uninstall : UninstallOptions → UninstallOptions
dry_uninstall o = record o { dry_run = true }

Idle-user_commands :
    (w : World) (o : InstallOptions) (b : Bool) → Idle (user_commands w (dry_install o) b)
unfolding user_commands resolve_executable user_exists
Idle-user_commands w o false = λ s. refl
Idle-user_commands w o true =
    Idle-bind (lift (executable (w.which (str "id")))) _ (λ s. refl)
      (λ id_executable.
        Idle-bind (lift (executable (w.which (str "useradd")))) _ (λ s. refl) (λ useradd s. refl))

pub Idle-install_service :
    (w : World) (o : InstallOptions) → Idle (install_service w (dry_install o))
unfolding install_service resolve_executable
Idle-install_service w o =
    Idle-bind (lift (validate_service_name o.service_name)) _ (λ s. refl)
      (λ name.
        Idle-bind (lift (validate_account_name o.user)) _ (λ s. refl)
          (λ user.
            Idle-bind (lift (validate_account_name o.group)) _ (λ s. refl)
              (λ group.
                Idle-bind (lift (executable (w.which (str "systemctl")))) _ (λ s. refl)
                  (λ systemctl.
                    Idle-bind (user_commands w (dry_install o) o.create_user) _
                      (Idle-user_commands w o o.create_user)
                      (λ first.
                        Idle-bind (lift (service_unit_name name)) _ (λ s. refl)
                          (λ unit.
                            Idle-bind (run_commands w _ true) _ (Idle-run_commands w _)
                              (λ rendered s. refl)))))))

Idle-purge_if :
    (w : World) (o : UninstallOptions) (b : Bool) → Idle (purge_if w (dry_uninstall o) b)
Idle-purge_if w o false = λ s. refl
Idle-purge_if w o true = Idle-purge_all w o.purge_paths

pub Idle-uninstall_service :
    (w : World) (o : UninstallOptions) → Idle (uninstall_service w (dry_uninstall o))
unfolding uninstall_service resolve_executable
Idle-uninstall_service w o =
    Idle-bind (lift (validate_service_name o.service_name)) _ (λ s. refl)
      (λ name.
        Idle-bind (lift (executable (w.which (str "systemctl")))) _ (λ s. refl)
          (λ systemctl.
            Idle-bind (lift (service_unit_name name)) _ (λ s. refl)
              (λ unit. Idle-bind (run_commands w _ true) _ (Idle-run_commands w _) (λ stopped.
                Idle-bind (run_commands w _ true) _ (Idle-run_commands w _) (λ reloaded.
                  Idle-bind (purge_if w (dry_uninstall o) o.purge) _ (Idle-purge_if w o o.purge)
                    (λ purged s. refl))))))

-- What running commands lists.
run_commands_listed :
    (w : World) (commands : List (List Text)) (b : Bool) (s t : Machine) (rendered : List Text)
    → run_commands w commands b s ≡ (ok rendered, t)
    → rendered ≡ map join_words commands
unfolding run_commands
run_commands_listed w [] b s t rendered h = sym (ok-injective (ap (λ r. r.0) h))
run_commands_listed w (command ∷ commands) b s t rendered h =
    let (_, u, e1, h1) = >>=-eq-returned (unless b (check_run w command)) _ s t h in
    let (r, v, e2, h2) = >>=-eq-returned (run_commands w commands b) _ u t h1 in
    let e = run_commands_listed w commands b u v r e2 in
    sym (ok-injective (ap (λ r. r.0) h2)) ∙ ap (λ (l : List Text). join_words command ∷ l) e

run_commands_dry :
    (w : World) (commands : List (List Text)) (s : Machine)
    → run_commands w commands true s ≡ (ok (map join_words commands), s)
unfolding run_commands
run_commands_dry w [] s = refl
run_commands_dry w (command ∷ commands) s = rw (run_commands_dry w commands s)

abbrev purge_line : Text → Text
purge_line path = str "purge " ++ path

purge_all_listed :
    (w : World) (paths : List Text) (b : Bool) (s t : Machine) (actions : List Text)
    → purge_all w paths b s ≡ (ok actions, t)
    → actions ≡ map purge_line paths
unfolding purge_all
purge_all_listed w [] b s t actions h = sym (ok-injective (ap (λ r. r.0) h))
purge_all_listed w (path ∷ paths) b s t actions h =
    let listed : List Text → M (List Text) = λ l. pure (purge_line path ∷ l) in
    let (_, v, e2, h2) =
      >>=-eq-returned (unless b (remove_entry w path (lookup path s)))
        (λ _. purge_all w paths b >>= listed) s t h in
    let (r, x, e3, h3) = >>=-eq-returned (purge_all w paths b) listed v t h2 in
    let e = purge_all_listed w paths b v x r e3 in
    sym (ok-injective (ap (λ r. r.0) h3)) ∙ ap (λ (l : List Text). purge_line path ∷ l) e

purge_all_dry :
    (w : World) (paths : List Text) (s : Machine)
    → purge_all w paths true s ≡ (ok (map purge_line paths), s)
unfolding purge_all
purge_all_dry w [] s = refl
purge_all_dry w (path ∷ paths) s = rw (purge_all_dry w paths s)

purge_if_dry :
    (w : World) (o : UninstallOptions) (b : Bool) (s t u : Machine) (actions : List Text)
    → purge_if w o b s ≡ (ok actions, t)
    → purge_if w (dry_uninstall o) b u ≡ (ok actions, u)
purge_if_dry w o false s t u actions h =
    ap (λ (l : List Text). (ok l, u)) (ok-injective (ap (λ r. r.0) h))
purge_if_dry w o true s t u actions h =
    rw (purge_all_listed w o.purge_paths o.dry_run s t actions h) (purge_all_dry w o.purge_paths u)

run_commands_predicted :
    (w : World) (commands : List (List Text)) (b : Bool) (s t u : Machine) (rendered : List Text)
    → run_commands w commands b s ≡ (ok rendered, t)
    → run_commands w commands true u ≡ (ok rendered, u)
run_commands_predicted w commands b s t u rendered h =
    rw (run_commands_listed w commands b s t rendered h) (run_commands_dry w commands u)

-- What a dry run lists, by what its parts give.
dry_actions :
    (w : World) (o : UninstallOptions) (s : Machine) (name systemctl unit : Text)
    (stopped reloaded purged : List Text)
    → validate_service_name o.service_name ≡ ok name
    → executable (w.which (str "systemctl")) ≡ ok systemctl
    → service_unit_name name ≡ ok unit
    → run_commands w
        ((systemctl ∷ str "stop" ∷ unit ∷ []) ∷ (systemctl ∷ str "disable" ∷ unit ∷ []) ∷ [])
        true
        s
      ≡ (ok stopped, s)
    → run_commands w ((systemctl ∷ str "daemon-reload" ∷ []) ∷ []) true s ≡ (ok reloaded, s)
    → purge_if w (dry_uninstall o) o.purge s ≡ (ok purged, s)
    → uninstall_service w (dry_uninstall o) s
      ≡ (ok (stopped ++ ((str "remove " ++ join_path o.unit_dir unit) ∷ (reloaded ++ purged))), s)
unfolding uninstall_service resolve_executable
dry_actions w o s name systemctl unit stopped reloaded purged e1 e2 e3 e4 e5 e6 =
    rw (e1, e2, e3, e4, e5, e6)

-- If uninstall_service returns, then its dry run on the same machine returns the same list of
-- actions, and leaves the machine as it was.
pub uninstall_service_predicted :
    (w : World) (o : UninstallOptions) (s t : Machine) (actions : List Text)
    → uninstall_service w o s ≡ (ok actions, t)
    → uninstall_service w (dry_uninstall o) s ≡ (ok actions, s)
unfolding uninstall_service resolve_executable
uninstall_service_predicted w o s t actions h =
    let (name, s1, e1, h1) =
      >>=-eq-returned (lift (validate_service_name o.service_name)) _ s t h in
    let (systemctl, s2, e2, h2) =
      >>=-eq-returned (lift (executable (w.which (str "systemctl")))) _ s1 t h1 in
    let (unit, s3, e3, h3) = >>=-eq-returned (lift (service_unit_name name)) _ s2 t h2 in
    let (stopped, s4, e4, h4) = >>=-eq-returned (run_commands w _ o.dry_run) _ s3 t h3 in
    let (_, s5, e5, h5) = >>=-eq-returned (unless o.dry_run (unlink_if_there w _)) _ s4 t h4 in
    let (reloaded, s6, e6, h6) = >>=-eq-returned (run_commands w _ o.dry_run) _ s5 t h5 in
    let (purged, s7, e7, h7) = >>=-eq-returned (purge_if w o o.purge) _ s6 t h6 in
    dry_actions w o s name systemctl unit stopped reloaded purged (lift-eq-returned _ _ _ e1).0
      (lift-eq-returned _ _ _ e2).0 (lift-eq-returned _ _ _ e3).0
      (run_commands_predicted w _ o.dry_run s3 s4 s stopped e4)
      (run_commands_predicted w _ o.dry_run s5 s6 s reloaded e6)
      (purge_if_dry w o o.purge s6 s7 s purged e7)
    ∙ ap (λ (r : Result (List Text)). (r, s)) (ap (λ r. r.0) h7)
