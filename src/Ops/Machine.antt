-- ===== src/Ops/Machine.antt =====
-- What relayx/ops.py and relayx/cli.py use of pathlib, shutil, subprocess and the console: the files
-- of the machine, the commands that were run on it, the lines that were printed, the answers that
-- the user will give, and the root logger.
-- A path names what it leads to from the working directory, so that ".", a relative path and an
-- absolute one may name the same file. Symbolic links and what a command does to the files are not
-- modelled.
use relay_x.Ops.Paths.{absolute, is_below, is_fixed}
use relay_x.Prelude.{
  ℕ, List, [], ◌∷◌, ◌++◌, Bool, true, false, ◌||◌, ◌==◌, Option, some, none, if◌then◌else◌,
}
use relay_x.Prelude.Int.{ℤ, pos}
use relay_x.Text.{Text}
use relay_x.Text.Equality.{text_eq}
use relay_x.Errors.{Result, ok, err, file_not_found, os_error, called_process_error, foreign}
use relay_x.Text.Unicode.{Unicode}
use relay_x.Logging.{RootLogger, configure_logging}

-- A file has its text and its permissions.
pub data Entry : Type 0 where
  directory : Entry
  file : Text → ℕ → Entry

-- The files under their absolute paths, and os.getcwd(), which the program never changes.
pub record Machine : Type 0 where
  pub cwd : Text
  pub entries : Text → Option Entry
  pub commands : List (List Text)
  pub printed : List Text
  pub answers : List Text
  pub logger : RootLogger

-- The world around the program: shutil.which; the exit status of a command, by the commands before
-- it; what the operating system permits, and the permissions it gives a new file.
pub record World : Type 0 where
  pub which : Text → Option Text
  pub status : List (List Text) → List Text → ℤ
  pub may_change : Text → Bool
  pub may_chmod : Text → Bool
  pub new_mode : ℕ

-- Code that changes the machine and may raise; what was changed before it raised stays changed.
abbrev pub M : Type 0 → Type 0
M A = Machine → Result A × Machine

abbrev pub and_then : {A B : Type 0} → Result A × Machine → (A → M B) → Result B × Machine
and_then (ok a, s) f = f a s
and_then (err e, s) f = (err e, s)

infixl 5 ◌>>=◌ ◌>>◌
abbrev pub ◌>>=◌ : {A B : Type 0} → M A → (A → M B) → M B
◌>>=◌ m f s = and_then (m s) f

abbrev pub ◌>>◌ : {B : Type 0} → M (Unit {0}) → M B → M B
m >> k = m >>= λ _. k

abbrev pub lift : {A : Type 0} → Result A → M A
lift r s = (r, s)

abbrev pub pure : {A : Type 0} → A → M A
pure a s = (ok a, s)

-- `if not dry_run:`
abbrev pub unless : Bool → M (Unit {0}) → M (Unit {0})
unless true m = pure tt
unless false m = m

-- What a path names.
abbrev pub lookup : Text → Machine → Option Entry
lookup path s = s.entries (absolute s.cwd path)

abbrev pub put : Text → Option Entry → Machine → Machine
put path e s = record s {
  entries = λ p. if text_eq p (absolute s.cwd path) then e else s.entries p;
}

abbrev pub is_some : Option Entry → Bool
is_some none = false
is_some (some e) = true

-- path.exists()
abbrev pub exists : Text → M Bool
exists path s = (ok (is_some (lookup path s)), s)

-- print(line)
unfoldable pub print : Text → M (Unit {0})
print line s = (ok tt, record s { printed = s.printed ++ line ∷ [] })

unfoldable pub print_all : List Text → M (Unit {0})
print_all [] = pure tt
print_all (line ∷ lines) = do print line; print_all lines

abbrev pub next_answer : List Text → M Text
next_answer [] s = (err foreign, s)
next_answer (answer ∷ others) s = (ok answer, record s { answers = others })

-- input(prompt)
unfoldable pub input : Text → M Text
input prompt s = next_answer s.answers s

-- configure_logging(level)
unfoldable pub configure : Unicode → Text → M (Unit {0})
configure u level s = (ok tt, record s { logger = configure_logging u level s.logger })

module _ (w : World) where
  -- os.mkdir of a directory that may exist already
  unfoldable pub make_directory : Text → M (Unit {0})
  make_directory path s = elim (lookup path s) [
    | some directory ↦ (ok tt, s)
    | some (file content mode) ↦ (err os_error, s)
    | none ↦ if w.may_change path then (ok tt, put path (some directory) s) else (err os_error, s)
  ]

  -- mkdir(parents=True, exist_ok=True), for the directories from the top
  unfoldable pub make_directories : List Text → M (Unit {0})
  make_directories [] = pure tt
  make_directories (path ∷ paths) = do make_directory path; make_directories paths

  -- The writing, by what is there.
  abbrev pub write_entry : Text → Text → Option Entry → M (Unit {0})
  write_entry path content (some directory) s = (err os_error, s)
  write_entry path content (some (file old mode)) s = (ok tt, put path (some (file content mode)) s)
  write_entry path content none s = (ok tt, put path (some (file content w.new_mode)) s)

  -- path.write_text(content), in a directory that is there
  unfoldable pub write_text : Text → Text → M (Unit {0})
  write_text path content s =
      if w.may_change path then write_entry path content (lookup path s) s else (err os_error, s)

  -- path.chmod(mode)
  unfoldable pub chmod : Text → ℕ → M (Unit {0})
  chmod path mode s = elim (lookup path s) [
    | some (file content old) ↦
        if w.may_chmod path
        then (ok tt, put path (some (file content mode)) s)
        else (err os_error, s)
    | some directory ↦ (if w.may_chmod path then ok tt else err os_error, s)
    | none ↦ (err file_not_found, s)
  ]

  -- path.unlink()
  unfoldable pub unlink : Text → M (Unit {0})
  unlink path s = elim (lookup path s) [
    | some (file content mode) ↦
        if w.may_change path then (ok tt, put path none s) else (err os_error, s)
    | some directory ↦ (err os_error, s)
    | none ↦ (err file_not_found, s)
  ]

  -- subprocess.run(command, check=False): its exit status
  unfoldable pub run : List Text → M ℤ
  run command s =
      (ok (w.status s.commands command), record s { commands = s.commands ++ command ∷ [] })

  abbrev pub is_zero : ℤ → Bool
  is_zero (pos n) = n == 0
  is_zero other = false

  -- subprocess.run(command, check=True)
  unfoldable pub check_run : List Text → M (Unit {0})
  check_run command = do
    status ← run command
    lift (if is_zero status then ok tt else err called_process_error)

-- The machine without what a test picks.
abbrev pub without : (Text → Bool) → Machine → Machine
without p s = record s { entries = λ path. if p path then none else s.entries path }

-- shutil.rmtree(path): first what is in the directory goes, then the directory. Where the operating
-- system does not permit it, nothing is removed.
unfoldable pub remove_tree : World → Text → M (Unit {0})
unfolding is_below is_fixed
remove_tree w path s =
    let dir = absolute s.cwd path in
    if w.may_change path
    then (if is_fixed path
        then (err os_error, without (is_below dir) s)
        else (ok tt, without (λ p. text_eq p dir || is_below dir p) s))
    else (err os_error, s)
