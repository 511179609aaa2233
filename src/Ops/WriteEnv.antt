-- ===== src/Ops/WriteEnv.antt =====
-- What write_env_file does to the file.
use relay_x.Ops.Paths.{absolute, ancestors}
use relay_x.Prelude.{
  ℕ, Bool, true, false, not, ◌&&◌, ◌≡◌, refl, ap, sym, ◌∙◌, Option, some, none, if◌then◌else◌,
}
use relay_x.Text.{Text}
use relay_x.Text.Equality.{text_eq_refl}
use relay_x.Errors.{Result, ok, err, raise_if, file_exists, os_error}
use relay_x.Ops.Machine.{
  Entry, directory, file, Machine, World, M, ◌>>◌, lift, is_some, lookup, put, make_directories,
  write_entry, write_text, chmod,
}
use relay_x.Ops.Changes.{>>=-eq-returned}
use relay_x.Ops.EnvFile.{private_mode, write_env_file}

put_same : (path : Text) (e : Option Entry) (s : Machine) → lookup path (put path e s) ≡ e
put_same path e s = rw (text_eq_refl (absolute s.cwd path)) refl

-- What the machine has at a path after it was put there.
after_put :
    (path : Text) (e : Option Entry) (s t : Machine)
    → ◌≡◌ {A = Result (Unit {0}) × Machine} (ok tt, put path e s) (ok tt, t)
    → lookup path t ≡ e
after_put path e s t h =
    ap (λ (r : Result (Unit {0}) × Machine). lookup path r.1) (sym h) ∙ put_same path e s

write_text_written :
    (w : World) (path content : Text) (s t : Machine)
    → write_text w path content s ≡ (ok tt, t)
    → (mode : ℕ) × (lookup path t ≡ some (file content mode))
unfolding write_text
write_text_written w path content s t h = from (w.may_change path) (lookup path s) h
  where
    from :
        (may : Bool) (e : Option Entry)
        → (if may then write_entry w path content e s else (err os_error, s)) ≡ (ok tt, t)
        → (mode : ℕ) × (lookup path t ≡ some (file content mode))
    from true (some directory) k = cc
    from true (some (file old mode)) k = (mode, after_put path (some (file content mode)) s t k)
    from true none k = (w.new_mode, after_put path (some (file content w.new_mode)) s t k)
    from false e k = cc

chmod_done :
    (w : World) (path content : Text) (old mode : ℕ) (s t : Machine)
    → lookup path s ≡ some (file content old)
    → chmod w path mode s ≡ (ok tt, t)
    → lookup path t ≡ some (file content mode)
unfolding chmod
chmod_done w path content old mode s t e h = from (w.may_chmod path) refl
  where
    from : (b : Bool) → w.may_chmod path ≡ b → lookup path t ≡ some (file content mode)
    from true may =
        after_put path (some (file content mode)) s t (sym (rw (e, may, chmod) refl) ∙ h)
    from false may =
        let refused : chmod w path mode s ≡ (err os_error, s) = rw (e, may, chmod) refl in cc

-- A file that was written has the content, and only its owner reads it.
pub write_env_file_written :
    (w : World) (path content : Text) (overwrite : Bool) (s t : Machine)
    → write_env_file w path content overwrite s ≡ (ok tt, t)
    → lookup path t ≡ some (file content private_mode)
unfolding write_env_file
write_env_file_written w path content overwrite s t h =
    let last : M (Unit {0}) = chmod w path private_mode in
    let body : M (Unit {0}) = write_text w path content >> last in
    let (_, s2, e2, h2) =
      >>=-eq-returned (lift (raise_if (is_some (lookup path s) && not overwrite) file_exists))
        (λ _. make_directories w (ancestors path) >> body) s t h in
    let (_, s3, e3, h3) =
      >>=-eq-returned (make_directories w (ancestors path)) (λ _. body) s2 t h2 in
    let (_, s4, e4, h4) = >>=-eq-returned (write_text w path content) (λ _. last) s3 t h3 in
    let (mode, e) = write_text_written w path content s3 s4 e4 in
    chmod_done w path content mode private_mode s4 t e h4
