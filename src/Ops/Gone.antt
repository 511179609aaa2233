-- ===== src/Ops/Gone.antt =====
-- What an uninstall takes away.
use relay_x.Prelude.{
  List, [], ◌∷◌, ◌++◌, Bool, true, false, ◌≡◌, refl, ap, sym, ◌∙◌, inl, inr, Option, some, none,
  All, Bool-cases, Option-cases, if◌then◌else◌, ◌||◌,
}
use mathlib.Core.Path.{subst}
use relay_x.Text.{Text, str}
use relay_x.Text.Equality.{text_eq, text_eq_refl}
use relay_x.Errors.{Result, ok, err, file_not_found, os_error}
use relay_x.Ops.Paths.{absolute, is_below, is_fixed}
use relay_x.Ops.Machine.{
  Entry, directory, file, Machine, World, M, ◌>>=◌, pure, unless, lookup, without, unlink,
  check_run, run, remove_tree,
}
use relay_x.Ops.Changes.{Within, Within-bind, >>=-eq-returned}
use relay_x.Ops.Service.{
  UninstallOptions, run_commands, unlink_if_there, remove_entry, purge_all, purge_if,
}

-- Nothing is there that was not there before, and the working directory stays.
abbrev pub Shrinks : Machine → Machine → Type 0
Shrinks s t = (t.cwd ≡ s.cwd) × ((p : Text) → s.entries p ≡ none → t.entries p ≡ none)

pub Shrinks-same : (s : Machine) → Shrinks s s
Shrinks-same s = (refl, λ p e. e)

pub Shrinks-chain : (s t u : Machine) → Shrinks s t → Shrinks t u → Shrinks s u
Shrinks-chain s t u (c, h) (d, k) = (d ∙ c, λ p e. k p (h p e))

-- A path that names nothing goes on naming nothing.
pub lookup_gone : (q : Text) (s t : Machine) → Shrinks s t → lookup q s ≡ none → lookup q t ≡ none
lookup_gone q s t (c, h) e = ap (λ d. t.entries (absolute d q)) c ∙ h (absolute s.cwd q) e

Shrinks-bind :
    {A B : Type 0} (m : M A) (f : A → M B)
    → Within Shrinks m
    → ((a : A) → Within Shrinks (f a))
    → Within Shrinks (m >>= f)
Shrinks-bind m f h k = Within-bind Shrinks Shrinks-same Shrinks-chain m f h k

Shrinks-unless : (b : Bool) (m : M (Unit {0})) → Within Shrinks m → Within Shrinks (unless b m)
Shrinks-unless true m h = Shrinks-same
Shrinks-unless false m h = h

pub Shrinks-run_commands :
    (w : World) (commands : List (List Text)) (b : Bool)
    → Within Shrinks (run_commands w commands b)
unfolding run_commands check_run run
Shrinks-run_commands w [] b s = Shrinks-same s
Shrinks-run_commands w (command ∷ commands) b s =
    Shrinks-bind (unless b (check_run w command)) _
      (Shrinks-unless b (check_run w command) (λ t. (refl, λ p e. e)))
      (λ _.
        Shrinks-bind (run_commands w commands b) _ (Shrinks-run_commands w commands b)
          (λ rendered. Shrinks-same))
      s

none_either : (b : Bool) (e : Option Entry) → e ≡ none → (if b then none else e) ≡ none
none_either true e h = refl
none_either false e h = h

Shrinks-without : (q : Text → Bool) (s : Machine) → Shrinks s (without q s)
Shrinks-without q s = (refl, λ p e. none_either (q p) (s.entries p) e)

Shrinks-unlink : (w : World) (path : Text) → Within Shrinks (unlink w path)
unfolding unlink
Shrinks-unlink w path s = elim (Option-cases (lookup path s)) [
  | inl e ↦ rw (e, unlink) (Shrinks-same s)
  | inr (directory, e) ↦ rw (e, unlink) (Shrinks-same s)
  | inr (file content mode, e) ↦ elim (Bool-cases (w.may_change path)) [
    | inl may ↦ rw (e, may, unlink) (Shrinks-without (λ p. text_eq p (absolute s.cwd path)) s)
    | inr may ↦ rw (e, may, unlink) (Shrinks-same s)
  ]
]

Shrinks-remove_tree : (w : World) (path : Text) → Within Shrinks (remove_tree w path)
unfolding remove_tree
Shrinks-remove_tree w path s = elim (Bool-cases (w.may_change path)) [
  | inr may ↦ rw (may, remove_tree) (Shrinks-same s)
  | inl may ↦ elim (Bool-cases (is_fixed path)) [
    | inr moves ↦
        rw (may, moves, remove_tree)
          (Shrinks-without
            (λ p. text_eq p (absolute s.cwd path) || is_below (absolute s.cwd path) p) s)
    | inl fixed ↦ rw (may, fixed, remove_tree) (Shrinks-without (is_below (absolute s.cwd path)) s)
  ]
]

Shrinks-remove_entry :
    (w : World) (path : Text) (e : Option Entry) → Within Shrinks (remove_entry w path e)
unfolding remove_entry
Shrinks-remove_entry w path none = Shrinks-same
Shrinks-remove_entry w path (some directory) = Shrinks-remove_tree w path
Shrinks-remove_entry w path (some (file content mode)) = Shrinks-unlink w path

Shrinks-purge_all :
    (w : World) (paths : List Text) (b : Bool) → Within Shrinks (purge_all w paths b)
unfolding purge_all
Shrinks-purge_all w [] b s = Shrinks-same s
Shrinks-purge_all w (path ∷ paths) b s =
    Shrinks-bind (unless b (remove_entry w path (lookup path s)))
      (λ _. purge_all w paths b >>= λ actions. pure ((str "purge " ++ path) ∷ actions))
      (Shrinks-unless b (remove_entry w path (lookup path s))
        (Shrinks-remove_entry w path (lookup path s)))
      (λ _.
        Shrinks-bind (purge_all w paths b) _ (Shrinks-purge_all w paths b)
          (λ actions. Shrinks-same))
      s

pub Shrinks-purge_if :
    (w : World) (o : UninstallOptions) (b : Bool) → Within Shrinks (purge_if w o b)
Shrinks-purge_if w o false = Shrinks-same
Shrinks-purge_if w o true = Shrinks-purge_all w o.purge_paths o.dry_run

-- The step that was run, where its result is known.
pub Shrinks-returned :
    {A : Type 0} (m : M A) (s t : Machine) {r : Result A}
    → Within Shrinks m
    → m s ≡ (r, t)
    → Shrinks s t
Shrinks-returned m s t h e = subst (λ (x : Result _ × Machine). Shrinks s x.1) e (h s)

module _ (w : World) (path : Text) (s t : Machine) where
  gone_without :
      (q : Text → Bool)
      → q (absolute s.cwd path) ≡ true
      → ◌≡◌ {A = Result (Unit {0}) × Machine} (ok tt, without q s) (ok tt, t)
      → lookup path t ≡ none
  gone_without q picked h =
      ap (λ (r : Result (Unit {0}) × Machine). lookup path r.1) (sym h) ∙ rw picked refl

  unlink_gone : unlink w path s ≡ (ok tt, t) → lookup path t ≡ none
  unfolding unlink
  unlink_gone h = from (lookup path s) (w.may_change path) refl refl
    where
      from :
          (e : Option Entry) (may : Bool)
          → lookup path s ≡ e
          → w.may_change path ≡ may
          → lookup path t ≡ none
      from none may e m =
          let no : unlink w path s ≡ (err file_not_found, s) = rw (e, unlink) refl in cc
      from (some directory) may e m =
          let no : unlink w path s ≡ (err os_error, s) = rw (e, unlink) refl in cc
      from (some (file content mode)) false e m =
          let no : unlink w path s ≡ (err os_error, s) = rw (e, m, unlink) refl in cc
      from (some (file content mode)) true e m =
          gone_without (λ p. text_eq p (absolute s.cwd path)) (text_eq_refl (absolute s.cwd path))
            (sym (rw (e, m, unlink) refl) ∙ h)

  remove_tree_gone : remove_tree w path s ≡ (ok tt, t) → lookup path t ≡ none
  unfolding remove_tree
  remove_tree_gone h = from (w.may_change path) (is_fixed path) refl refl
    where
      from :
          (may fixed : Bool)
          → w.may_change path ≡ may
          → is_fixed path ≡ fixed
          → lookup path t ≡ none
      from false fixed m f =
          let no : remove_tree w path s ≡ (err os_error, s) = rw (m, remove_tree) refl in cc
      from true true m f =
          let no : remove_tree w path s
              ≡ (err os_error, without (is_below (absolute s.cwd path)) s) =
            rw (m, f, remove_tree) refl in
          cc
      from true false m f =
          gone_without (λ p. text_eq p (absolute s.cwd path) || is_below (absolute s.cwd path) p)
            (rw (text_eq_refl (absolute s.cwd path)) refl) (sym (rw (m, f, remove_tree) refl) ∙ h)

  remove_entry_gone :
      (e : Option Entry)
      → lookup path s ≡ e
      → remove_entry w path e s ≡ (ok tt, t)
      → lookup path t ≡ none
  unfolding remove_entry
  remove_entry_gone none e h = ap (λ (r : Result (Unit {0}) × Machine). lookup path r.1) (sym h) ∙ e
  remove_entry_gone (some directory) e h = remove_tree_gone h
  remove_entry_gone (some (file content mode)) e h = unlink_gone h

  pub unlink_if_there_gone : unlink_if_there w path s ≡ (ok tt, t) → lookup path t ≡ none
  unfolding unlink_if_there
  unlink_if_there_gone h = elim (Option-cases (lookup path s)) [
    | inl e ↦ ap (λ (r : Result (Unit {0}) × Machine). lookup path r.1) (sym (rw e at h)) ∙ e
    | inr (entry, e) ↦ unlink_gone (rw e at h)
  ]

-- Behind a purge that returned, none of the paths names anything.
pub purge_all_gone :
    (w : World) (paths : List Text) (s t : Machine) (actions : List Text)
    → purge_all w paths false s ≡ (ok actions, t)
    → All (λ q. lookup q t ≡ none) paths
unfolding purge_all
purge_all_gone w [] s t actions h = tt
purge_all_gone w (path ∷ paths) s t actions h =
    let listed : List Text → M (List Text) = λ l. pure ((str "purge " ++ path) ∷ l) in
    let (_, v, e2, h2) =
      >>=-eq-returned (remove_entry w path (lookup path s))
        (λ _. purge_all w paths false >>= listed) s t h in
    let (r, x, e3, h3) = >>=-eq-returned (purge_all w paths false) listed v t h2 in
    let end : purge_all w paths false v ≡ (ok r, t) = e3 ∙ ap (λ y. (ok r, y)) (ap (λ z. z.1) h3) in
    (
      lookup_gone path v t
          (Shrinks-returned (purge_all w paths false) v t (Shrinks-purge_all w paths false) end)
          (remove_entry_gone w path s v (lookup path s) refl e2),
      purge_all_gone w paths v t r end,
    )
