-- ===== src/Text/Strip.antt =====
-- What `str.strip` leaves alone.
use relay_x.Prelude.{
  ℕ, [], ◌∷◌, ◌++◌, ◌≡◌, refl, ap, ◌∙◌, Bool, true, false, not, all, &&_iff, if◌then◌else◌, arith,
}
use relay_x.Text.{Text}
use relay_x.Text.Split.{strip_chars, lstrip, rstrip}

pub rstrip_kept :
    (p : ℕ → Bool) (c : ℕ) (s : Text) → p c ≡ false → rstrip p (c ∷ s) ≡ c ∷ rstrip p s
unfolding rstrip
rstrip_kept p c s h = from (rstrip p s)
  where
    from : (r : Text) → (elim r [ [] ↦ if p c then [] else c ∷ [] | d ∷ t ↦ c ∷ d ∷ t ]) ≡ c ∷ r
    from [] = rw h
    from (d ∷ t) = refl

-- What stands behind a character that stays is stripped alone.
pub rstrip_behind :
    (p : ℕ → Bool) (xs : Text) (c : ℕ) (ys : Text)
    → p c ≡ false
    → all (λ x. not (p x)) xs ≡ true
    → rstrip p (xs ++ c ∷ ys) ≡ xs ++ c ∷ rstrip p ys
rstrip_behind p [] c ys h k = rstrip_kept p c ys h
rstrip_behind p (x ∷ xs) c ys h k =
    let (first, others) = (&&_iff (not (p x)) (all (λ y. not (p y)) xs)).0 k in
    rstrip_kept p x (xs ++ c ∷ ys) (ground arith)
    ∙ ap (λ t. x ∷ t) (rstrip_behind p xs c ys h others)

pub rstrip_id : (p : ℕ → Bool) (s : Text) → all (λ x. not (p x)) s ≡ true → rstrip p s ≡ s
unfolding rstrip
rstrip_id p [] k = refl
rstrip_id p (x ∷ xs) k =
    let (first, others) = (&&_iff (not (p x)) (all (λ y. not (p y)) xs)).0 k in
    rstrip_kept p x xs (ground arith) ∙ ap (λ t. x ∷ t) (rstrip_id p xs others)

pub lstrip_kept : (p : ℕ → Bool) (c : ℕ) (s : Text) → p c ≡ false → lstrip p (c ∷ s) ≡ c ∷ s
unfolding lstrip
lstrip_kept p c s h = rw h

pub strip_chars_id : (p : ℕ → Bool) (s : Text) → all (λ x. not (p x)) s ≡ true → strip_chars p s ≡ s
unfolding strip_chars
strip_chars_id p [] k = refl
strip_chars_id p (x ∷ xs) k =
    let (first, others) = (&&_iff (not (p x)) (all (λ y. not (p y)) xs)).0 k in
    rw (lstrip_kept p x xs (ground arith)) (rstrip_id p (x ∷ xs) k)
