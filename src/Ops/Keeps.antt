-- ===== src/Ops/Keeps.antt =====
-- What the steps of an uninstall leave of the files.
use relay_x.Ops.Paths.{absolute, is_fixed, is_below}
use relay_x.Prelude.{
  List, [], ◌∷◌, ◌++◌, Bool, true, false, not, ◌||◌, ◌≡◌, refl, ap, ◌∙◌, inl, inr, Option, some,
  none, all, Bool-cases, Option-cases, &&_iff, ||-eq-false, false_of_not,
}
use relay_x.Text.{Text, str}
use relay_x.Text.Equality.{text_eq}
use relay_x.Ops.Machine.{
  Entry, directory, file, Machine, World, M, ◌>>=◌, pure, unless, put, lookup, without, is_some,
  unlink, check_run, run, remove_tree,
}
use relay_x.Ops.Changes.{Within, Within-bind}
use relay_x.Ops.Service.{
  UninstallOptions, run_commands, unlink_if_there, remove_entry, purge_all, purge_if,
}

-- Whether p is a place or below it, both by absolute paths.
abbrev pub reaches : Text → Text → Bool
reaches p place = text_eq p place || is_below place p

-- No purge of these paths, from a working directory, reaches p.
abbrev pub spares : Text → Text → List Text → Bool
spares cwd p = all (λ path. not (reaches p (absolute cwd path)))

module _ (cwd p : Text) where
  -- From the working directory, what the machine has at p stays there, and the directory stays.
  abbrev pub Keeps : Machine → Machine → Type 0
  Keeps s t = s.cwd ≡ cwd → (t.cwd ≡ cwd) × (t.entries p ≡ s.entries p)

  pub Keeps-same : (s : Machine) → Keeps s s
  Keeps-same s here = (here, refl)

  pub Keeps-chain : (s t u : Machine) → Keeps s t → Keeps t u → Keeps s u
  Keeps-chain s t u h k here =
      let (there, first) = h here in let (end, second) = k there in (end, second ∙ first)

  pub Keeps-bind :
      {A B : Type 0} (m : M A) (f : A → M B)
      → Within Keeps m
      → ((a : A) → Within Keeps (f a))
      → Within Keeps (m >>= f)
  Keeps-bind m f h k = Within-bind Keeps Keeps-same Keeps-chain m f h k

  pub Keeps-unless : (b : Bool) (m : M (Unit {0})) → Within Keeps m → Within Keeps (unless b m)
  Keeps-unless true m h = Keeps-same
  Keeps-unless false m h = h

  -- Commands leave the files alone.
  pub Keeps-run_commands :
      (w : World) (commands : List (List Text)) (b : Bool)
      → Within Keeps (run_commands w commands b)
  unfolding run_commands check_run run
  Keeps-run_commands w [] b s = Keeps-same s
  Keeps-run_commands w (command ∷ commands) b s =
      Keeps-bind (unless b (check_run w command)) _
        (Keeps-unless b (check_run w command) (λ s here. (here, refl)))
        (λ _.
          Keeps-bind (run_commands w commands b) _ (Keeps-run_commands w commands b)
            (λ rendered s here. (here, refl)))
        s

  put_other :
      (path : Text) (e : Option Entry) (s : Machine)
      → text_eq p (absolute cwd path) ≡ false
      → Keeps s (put path e s)
  put_other path e s other here = (here, rw (here, other) refl)

  Keeps-unlink :
      (w : World) (path : Text)
      → text_eq p (absolute cwd path) ≡ false
      → Within Keeps (unlink w path)
  unfolding unlink
  Keeps-unlink w path other s = elim (Option-cases (lookup path s)) [
    | inl e ↦ rw (e, unlink) (Keeps-same s)
    | inr (directory, e) ↦ rw (e, unlink) (Keeps-same s)
    | inr (file content mode, e) ↦ elim (Bool-cases (w.may_change path)) [
      | inl may ↦ rw (e, may, unlink) (put_other path none s other)
      | inr may ↦ rw (e, may, unlink) (Keeps-same s)
    ]
  ]

  Keeps-without :
      (q : Text → Bool) (s : Machine) → (s.cwd ≡ cwd → q p ≡ false) → Keeps s (without q s)
  Keeps-without q s spared here = (here, rw (spared here) refl)

  Keeps-remove_tree :
      (w : World) (path : Text)
      → reaches p (absolute cwd path) ≡ false
      → Within Keeps (remove_tree w path)
  unfolding remove_tree
  Keeps-remove_tree w path other s =
      let reach = λ (here : s.cwd ≡ cwd). ap (λ c. reaches p (absolute c path)) here ∙ other in
      elim (Bool-cases (w.may_change path)) [
        | inr may ↦ rw (may, remove_tree) (Keeps-same s)
        | inl may ↦ elim (Bool-cases (is_fixed path)) [
          | inr moves ↦
              rw (may, moves, remove_tree)
                (Keeps-without (λ q. reaches q (absolute s.cwd path)) s reach)
          | inl fixed ↦
              rw (may, fixed, remove_tree)
                (Keeps-without (is_below (absolute s.cwd path)) s (λ here.
                  (||-eq-false (text_eq p (absolute s.cwd path)) (is_below (absolute s.cwd path) p)
                    (reach here)).1))
        ]
      ]

  pub Keeps-unlink_if_there :
      (w : World) (path : Text)
      → text_eq p (absolute cwd path) ≡ false
      → Within Keeps (unlink_if_there w path)
  unfolding unlink_if_there
  Keeps-unlink_if_there w path other s =
      Keeps-unless (not (is_some (lookup path s))) (unlink w path) (Keeps-unlink w path other) s

  Keeps-remove_entry :
      (w : World) (path : Text) (e : Option Entry)
      → reaches p (absolute cwd path) ≡ false
      → Within Keeps (remove_entry w path e)
  unfolding remove_entry
  Keeps-remove_entry w path none other = Keeps-same
  Keeps-remove_entry w path (some directory) other = Keeps-remove_tree w path other
  Keeps-remove_entry w path (some (file content mode)) other =
      Keeps-unlink w path
        (||-eq-false (text_eq p (absolute cwd path)) (is_below (absolute cwd path) p) other).0

  Keeps-purge_all :
      (w : World) (paths : List Text) (b : Bool)
      → spares cwd p paths ≡ true
      → Within Keeps (purge_all w paths b)
  unfolding purge_all
  Keeps-purge_all w [] b spared s = Keeps-same s
  Keeps-purge_all w (path ∷ paths) b spared s =
      let (first, others) =
        (&&_iff (not (reaches p (absolute cwd path))) (spares cwd p paths)).0 spared in
      Keeps-bind (unless b (remove_entry w path (lookup path s)))
        (λ _. purge_all w paths b >>= λ actions. pure ((str "purge " ++ path) ∷ actions))
        (Keeps-unless b (remove_entry w path (lookup path s)) (
          Keeps-remove_entry w path (lookup path s)
            (false_of_not (reaches p (absolute cwd path)) first)))
        (λ _.
          Keeps-bind (purge_all w paths b) _ (Keeps-purge_all w paths b others)
            (λ actions. Keeps-same))
        s

  pub Keeps-purge_if :
      (w : World) (o : UninstallOptions) (b : Bool)
      → (b ≡ true → spares cwd p o.purge_paths ≡ true)
      → Within Keeps (purge_if w o b)
  Keeps-purge_if w o false spared = Keeps-same
  Keeps-purge_if w o true spared = Keeps-purge_all w o.purge_paths o.dry_run (spared refl)
