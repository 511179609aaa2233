-- ===== src/Ops/Changes.antt =====
-- How code changes the machine: a relation between the machine before and after, which every part of
-- the code keeps and which is reflexive and transitive, holds of the whole.
use relay_x.Prelude.{◌≡◌, refl, ap}
use relay_x.Errors.{Result, ok, err}
use relay_x.Ops.Machine.{Machine, M, and_then, ◌>>=◌, lift}

abbrev pub Within : (Machine → Machine → Type 0) → {A : Type 0} → M A → Type 0
Within R m = (s : Machine) → R s (m s).1

module _ (R : Machine → Machine → Type 0) (stay : (s : Machine) → R s s)
    (chain : (s t u : Machine) → R s t → R t u → R s u) where
  pub Within-bind :
      {A B : Type 0} (m : M A) (f : A → M B)
      → Within R m
      → ((a : A) → Within R (f a))
      → Within R (m >>= f)
  Within-bind m f h k s = rest (m s) (h s)
    where
      rest : (r : Result _ × Machine) → R s r.1 → R s (and_then r f).1
      rest (ok a, t) step = chain s t _ step (k a t)
      rest (err e, t) step = step

  -- A first part that does nothing, but may raise.
  pub Within-lift-bind :
      {A B : Type 0} (r : Result A) (f : A → M B)
      → ((a : A) → r ≡ ok a → Within R (f a))
      → Within R (lift r >>= f)
  Within-lift-bind (ok a) f h = h a refl
  Within-lift-bind (err e) f h = λ s. stay s

-- Code that returned ran its first part, which returned, and then its second part.
pub >>=-eq-returned :
    {A B : Type 0} {b : B} (m : M A) (f : A → M B) (s t : Machine)
    → (m >>= f) s ≡ (ok b, t)
    → (a : A) × (u : Machine) × (m s ≡ (ok a, u)) × (f a u ≡ (ok b, t))
>>=-eq-returned {A} {B} {b} m f s t h = from (m s) refl h
  where
    from :
        (r : Result A × Machine)
        → m s ≡ r
        → and_then r f ≡ (ok b, t)
        → (a : A) × (u : Machine) × (m s ≡ (ok a, u)) × (f a u ≡ (ok b, t))
    from (ok a, u) e k = (a, u, e, k)
    from (err e', u) e k = cc

-- A lifted result that was returned.
pub lift-eq-returned :
    {A : Type 0} (r : Result A) (s u : Machine) {a : A}
    → lift r s ≡ (ok a, u)
    → (r ≡ ok a) × (s ≡ u)
lift-eq-returned r s u h = (ap (λ t. t.0) h, ap (λ t. t.1) h)
