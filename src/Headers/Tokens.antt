-- ===== src/Headers/Tokens.antt =====
-- What the Connection headers of a message say of a name.
use relay_x.Prelude.{
  List, map, [], ◌∷◌, ◌≡◌, ◌≢◌, ◌⊎◌, inl, inr, refl, true, false, not, filter, All, arith,
  Bool-cases, ||-eq-false, All-append, All-append_left, All-append_right,
}
use relay_x.Text.{Text, str}
use relay_x.Text.Equality.{text_eq, text_eq_refl, eq_of_text_eq, one_of}
use relay_x.Text.Unicode.{Unicode}
use relay_x.Text.Split.{split, strip}
use relay_x.Models.{HeaderList, is_empty}
use relay_x.Headers.{option_tokens, connection_tokens}

-- A text is none of these.
abbrev pub IsNoneOf : List Text → Text → Type 0
IsNoneOf names x = All (λ t. x ≢ t) names

pub one_of-IsNoneOf : (x : Text) (ts : List Text) → one_of x ts ≡ false → IsNoneOf ts x
unfolding one_of
one_of-IsNoneOf x [] h = tt
one_of-IsNoneOf x (t ∷ ts) h =
    let (first, others) = ||-eq-false (text_eq x t) (one_of x ts) h in
    (
      λ e. let same : text_eq x t ≡ true = rw e (text_eq_refl t) in ground (arith, first, same),
      one_of-IsNoneOf x ts others,
    )

pub one_of-false : (x : Text) (ts : List Text) → IsNoneOf ts x → one_of x ts ≡ false
unfolding one_of
one_of-false x [] h = refl
one_of-false x (t ∷ ts) (h, hs) = elim (Bool-cases (text_eq x t)) [
  | inl e ↦ elim (h (eq_of_text_eq x t e)) [ ]
  | inr n ↦ rw n (one_of-false x ts hs)
]

ne_of_text_eq : (s t : Text) → text_eq s t ≡ false → s ≢ t
ne_of_text_eq s t n e =
    let same : text_eq s t ≡ true = rw e (text_eq_refl t) in ground (arith, n, same)

module _ (u : Unicode) where
  -- An option in a Connection header does not name the header, however either is written and with
  -- whatever white space around the option.
  abbrev pub IsUnnamedBy : Text → Text → Type 0
  IsUnnamedBy name option = (strip option ≡ []) ⊎ (u.lower name ≢ u.lower (strip option))

  is_empty-nil : (s : Text) → not (is_empty s) ≡ false → s ≡ []
  is_empty-nil [] h = refl
  is_empty-nil (c ∷ s) h = cc

  nonempty-ne : (s : Text) → not (is_empty s) ≡ true → s ≢ []
  nonempty-ne s h e = let bad : false ≡ true = rw e at h in cc bad

  -- What a header's options say of a name, and what the tokens made of them say of it.
  IsNoneOf-tokens :
      (name : Text) (pieces : List Text)
      → All (IsUnnamedBy name) pieces
      → IsNoneOf
          (map (λ t. u.lower (strip t)) (filter (λ t. not (is_empty (strip t))) pieces))
          (u.lower name)
  IsNoneOf-tokens name [] h = tt
  IsNoneOf-tokens name (t ∷ ts) (h, hs) = elim (Bool-cases (not (is_empty (strip t)))) [
    | inl full ↦ rw full (named full h, IsNoneOf-tokens name ts hs)
    | inr empty ↦ rw empty (IsNoneOf-tokens name ts hs)
  ]
    where
      named :
          not (is_empty (strip t)) ≡ true → IsUnnamedBy name t → u.lower name ≢ u.lower (strip t)
      named full (inl e) = elim (nonempty-ne (strip t) full e) [ ]
      named full (inr n) = n

  IsUnnamedBy-pieces :
      (name : Text) (pieces : List Text)
      → IsNoneOf
          (map (λ t. u.lower (strip t)) (filter (λ t. not (is_empty (strip t))) pieces))
          (u.lower name)
      → All (IsUnnamedBy name) pieces
  IsUnnamedBy-pieces name [] h = tt
  IsUnnamedBy-pieces name (t ∷ ts) h = elim (Bool-cases (not (is_empty (strip t)))) [
    | inl full ↦
        let (first, others) = rw full at h in (inr first, IsUnnamedBy-pieces name ts others)
    | inr empty ↦ (inl (is_empty-nil (strip t) empty), IsUnnamedBy-pieces name ts (rw empty at h))
  ]

  abbrev pub IsSparedBy : Text → Text × Text → Type 0
  IsSparedBy name c = (u.lower c.0 ≢ str "connection") ⊎ All (IsUnnamedBy name) (split b',' c.1)

  pub IsNoneOf-connection_tokens :
      (name : Text) (hs : HeaderList)
      → All (IsSparedBy name) hs
      → IsNoneOf (connection_tokens u hs) (u.lower name)
  unfolding connection_tokens option_tokens
  IsNoneOf-connection_tokens name [] h = tt
  IsNoneOf-connection_tokens name ((n, value) ∷ hs) (h, rest) =
      let others = IsNoneOf-connection_tokens name hs rest in
      elim (Bool-cases (text_eq (u.lower n) (str "connection"))) [
        | inr other ↦ rw other others
        | inl own ↦ rw own (
            All-append (λ t. u.lower name ≢ t) (option_tokens u value) (connection_tokens u hs)
              (IsNoneOf-tokens name (split b',' value) (options own h)) others)
      ]
    where
      options :
          text_eq (u.lower n) (str "connection") ≡ true
          → IsSparedBy name (n, value)
          → All (IsUnnamedBy name) (split b',' value)
      options own (inl other) = elim (other (eq_of_text_eq (u.lower n) _ own)) [ ]
      options own (inr all) = all

  pub All-IsSparedBy :
      (name : Text) (hs : HeaderList)
      → IsNoneOf (connection_tokens u hs) (u.lower name)
      → All (IsSparedBy name) hs
  unfolding connection_tokens option_tokens
  All-IsSparedBy name [] h = tt
  All-IsSparedBy name ((n, value) ∷ hs) h =
      elim (Bool-cases (text_eq (u.lower n) (str "connection"))) [
        | inr other ↦
            (inl (ne_of_text_eq (u.lower n) _ other), All-IsSparedBy name hs (rw other at h))
        | inl own ↦
            let both = rw own at h in
            (
              inr (
                  IsUnnamedBy-pieces name (split b',' value) (
                    All-append_left (λ t. u.lower name ≢ t) (option_tokens u value)
                      (connection_tokens u hs) both)),
              All-IsSparedBy name hs (
                  All-append_right (λ t. u.lower name ≢ t) (option_tokens u value)
                    (connection_tokens u hs) both),
            )
      ]
