-- ===== src/Ops/Uninstall.antt =====
-- About the files that an uninstall leaves alone, and those that it takes away.
use relay_x.Ops.Gone.{
  lookup_gone, Shrinks-run_commands, Shrinks-purge_if, Shrinks-returned, unlink_if_there_gone,
  purge_all_gone,
}
use mathlib.Core.Path.{subst}
use relay_x.Ops.Keeps.{
  spares, Keeps, Keeps-same, Keeps-chain, Keeps-bind, Keeps-unless, Keeps-run_commands,
  Keeps-unlink_if_there, Keeps-purge_if,
}
use relay_x.Ops.Paths.{absolute, join_path}
use relay_x.Prelude.{
  List, [], ◌∷◌, Bool, All, none, ◌⊎◌, inl, inr, if◌then◌else◌, ◌++◌, true, false, not, ◌||◌, ◌≡◌,
  refl, ap, sym, ◌∙◌,
}
use relay_x.Text.{Text, str}
use relay_x.Text.Equality.{text_eq}
use relay_x.Errors.{Exn, Result, ok, err, guard-eq-ok, ok-injective, value_error}
use relay_x.Text.Split.{starts_with}
use relay_x.Ops.{validate_service_name, is_safe_name}
use relay_x.Ops.Machine.{Machine, World, lift, unless, lookup}
use relay_x.Ops.Changes.{>>=-eq-returned, Within, Within-lift-bind}
use relay_x.Ops.Service.{
  UninstallOptions, executable, service_unit_name, resolve_executable, run_commands,
  unlink_if_there, purge_all, purge_if, uninstall_service,
}

name_of_name : (s name : Text) → validate_service_name s ≡ ok name → name ≡ s
unfolding validate_service_name
name_of_name s name h =
    let (g, e) =
      guard-eq-ok (not (is_safe_name s) || starts_with (str "-") s) value_error (λ _. ok s) h in
    sym (ok-injective e)

unit_of_name :
    (service_name name unit : Text)
    → validate_service_name service_name ≡ ok name
    → service_unit_name name ≡ ok unit
    → unit ≡ service_name ++ str ".service"
unfolding service_unit_name
unit_of_name service_name name unit h k = from (validate_service_name name) refl k
  where
    from :
        (r : Result Text)
        → validate_service_name name ≡ r
        → (elim r [ ok safe ↦ ok (safe ++ str ".service") | err e ↦ err e ]) ≡ ok unit
        → unit ≡ service_name ++ str ".service"
    from (ok safe) e i =
        sym (ok-injective i)
        ∙ ap (λ t. t ++ str ".service")
            (name_of_name name safe e ∙ name_of_name service_name name h)
    from (err e') e i = cc

-- The unit file of a service.
abbrev pub unit_file : UninstallOptions → Text
unit_file o = join_path o.unit_dir (o.service_name ++ str ".service")

uninstall_service-Keeps :
    (w : World) (o : UninstallOptions) (cwd p : Text)
    → text_eq p (absolute cwd (unit_file o)) ≡ false
    → (o.purge ≡ true → spares cwd p o.purge_paths ≡ true)
    → Within (Keeps cwd p) (uninstall_service w o)
unfolding uninstall_service resolve_executable
uninstall_service-Keeps w o cwd p other spared =
    let same = Keeps-same cwd p in
    let chain = Keeps-chain cwd p in
    Within-lift-bind (Keeps cwd p) same chain (validate_service_name o.service_name) _
      (λ name named.
        Within-lift-bind (Keeps cwd p) same chain (executable (w.which (str "systemctl"))) _
          (λ systemctl found.
            Within-lift-bind (Keeps cwd p) same chain (service_unit_name name) _ (λ unit made.
              Keeps-bind cwd p (run_commands w _ o.dry_run) _
                (Keeps-run_commands cwd p w _ o.dry_run)
                (λ stopped.
                  Keeps-bind cwd p
                    (unless o.dry_run (unlink_if_there w (join_path o.unit_dir unit))) _
                    (Keeps-unless cwd p o.dry_run (unlink_if_there w (join_path o.unit_dir unit)) (
                      Keeps-unlink_if_there cwd p w (join_path o.unit_dir unit) (
                        ap (λ u. text_eq p (absolute cwd (join_path o.unit_dir u)))
                          (unit_of_name o.service_name name unit named made)
                        ∙ other)))
                    (λ _.
                      Keeps-bind cwd p (run_commands w _ o.dry_run) _
                        (Keeps-run_commands cwd p w _ o.dry_run)
                        (λ reloaded.
                          Keeps-bind cwd p (purge_if w o o.purge) _
                            (Keeps-purge_if cwd p w o o.purge spared) (λ purged. same)))))))

purge_if_gone :
    (w : World) (o : UninstallOptions) (b : Bool) (s t : Machine) (actions : List Text)
    → o.dry_run ≡ false
    → purge_if w o b s ≡ (ok actions, t)
    → All (λ q. lookup q t ≡ none) (if b then o.purge_paths else [])
purge_if_gone w o false s t actions wet h = tt
purge_if_gone w o true s t actions wet h =
    purge_all_gone w o.purge_paths s t actions
      (ap (λ b. purge_all w o.purge_paths b s) (sym wet) ∙ h)

-- The paths that an uninstall takes away.
abbrev pub targets : UninstallOptions → List Text
targets o = unit_file o ∷ (if o.purge then o.purge_paths else [])

uninstall_service_gone :
    (w : World) (o : UninstallOptions) (s t : Machine) (actions : List Text)
    → o.dry_run ≡ false
    → uninstall_service w o s ≡ (ok actions, t)
    → All (λ q. lookup q t ≡ none) (targets o)
unfolding uninstall_service resolve_executable
uninstall_service_gone w o s t actions wet h =
    let (name, s1, e1, h1) =
      >>=-eq-returned (lift (validate_service_name o.service_name)) _ s t h in
    let (systemctl, s2, e2, h2) =
      >>=-eq-returned (lift (executable (w.which (str "systemctl")))) _ s1 t h1 in
    let (unit, s3, e3, h3) = >>=-eq-returned (lift (service_unit_name name)) _ s2 t h2 in
    let (stopped, s4, e4, h4) = >>=-eq-returned (run_commands w _ o.dry_run) _ s3 t h3 in
    let unit_path = join_path o.unit_dir unit in
    let (_, s5, e5, h5) =
      >>=-eq-returned (unless o.dry_run (unlink_if_there w unit_path)) _ s4 t h4 in
    let (reloaded, s6, e6, h6) = >>=-eq-returned (run_commands w _ o.dry_run) _ s5 t h5 in
    let (purged, s7, e7, h7) = >>=-eq-returned (purge_if w o o.purge) _ s6 t h6 in
    let end : purge_if w o o.purge s6 ≡ (ok purged, t) =
      e7 ∙ ap (λ y. (ok purged, y)) (ap (λ z. z.1) h7) in
    let same : unit_path ≡ unit_file o =
      ap (join_path o.unit_dir)
        (unit_of_name o.service_name name unit (ap (λ z. z.0) e1) (ap (λ z. z.0) e3)) in
    let gone =
      unlink_if_there_gone w unit_path s4 s5
        (ap (λ b. unless b (unlink_if_there w unit_path) s4) (sym wet) ∙ e5) in
    let left =
      lookup_gone unit_path s5 s6
        (Shrinks-returned (run_commands w _ o.dry_run) s5 s6 (Shrinks-run_commands w _ o.dry_run)
          e6)
        gone in
    let at_end =
      lookup_gone unit_path s6 t
        (Shrinks-returned (purge_if w o o.purge) s6 t (Shrinks-purge_if w o o.purge) end) left in
    (subst (λ q. lookup q t ≡ none) same at_end, purge_if_gone w o o.purge s6 t purged wet end)

uninstall_service_kept :
    (w : World) (o : UninstallOptions) (path : Text) (s : Machine)
    → text_eq (absolute s.cwd path) (absolute s.cwd (unit_file o)) ≡ false
    → (o.purge ≡ true → spares s.cwd (absolute s.cwd path) o.purge_paths ≡ true)
    → lookup path (uninstall_service w o s).1 ≡ lookup path s
uninstall_service_kept w o path s other spared =
    let (here, kept) =
      uninstall_service-Keeps w o s.cwd (absolute s.cwd path) other spared s refl in
    ap (λ c. (uninstall_service w o s).1.entries (absolute c path)) here ∙ kept

uninstall_service_end :
    (w : World) (o : UninstallOptions) (s : Machine) (b : Bool)
    → o.dry_run ≡ b
    → (r : Result (List Text) × Machine) → uninstall_service w o s ≡ r
    → ((e : Exn) × (r.0 ≡ err e))
      ⊎ ((o.dry_run ≡ true) ⊎ All (λ q. lookup q r.1 ≡ none) (targets o))
uninstall_service_end w o s b d (err e, t) h = inl (e, refl)
uninstall_service_end w o s true d (ok actions, t) h = inr (inl d)
uninstall_service_end w o s false d (ok actions, t) h =
    inr (inr (uninstall_service_gone w o s t actions d h))

-- For a path that from the working directory leads neither to the unit file nor, when purging, to
-- what one of the purged paths leads to or below it: however uninstall_service ends, what the path
-- names on the machine stays there; and uninstall_service raises, or it was a dry run, or
-- afterwards nothing is at the unit file nor, when purging, at any of the purged paths.
pub uninstall_service_keeps :
    (w : World) (o : UninstallOptions) (path : Text) (s : Machine)
    → text_eq (absolute s.cwd path) (absolute s.cwd (unit_file o)) ≡ false
    → (o.purge ≡ true → spares s.cwd (absolute s.cwd path) o.purge_paths ≡ true)
    → (lookup path (uninstall_service w o s).1 ≡ lookup path s)
      × (((e : Exn) × ((uninstall_service w o s).0 ≡ err e))
          ⊎ ((o.dry_run ≡ true)
              ⊎ All (λ q. lookup q (uninstall_service w o s).1 ≡ none) (targets o)))
uninstall_service_keeps w o path s other spared = (
  uninstall_service_kept w o path s other spared,
  uninstall_service_end w o s o.dry_run refl (uninstall_service w o s) refl,
)
