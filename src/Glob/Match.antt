-- ===== src/Glob/Match.antt =====
-- What it means for a name to match a pattern of crates/tributary/src/glob.rs, by trying every run for
-- every star.
use mathlib.Core.Bool.{false≢true}
use tributary.Prelude.{
  ℕ, ◌≡◌, ◌∙◌, refl, sym, ap₂, Bool, true, false, ◌&&◌, ◌||◌, [], ◌∷◌, Text, ◌==◌, All, Bool-cases,
  ◌⊎◌, inl, inr,
}
use tributary.Glob.{only_stars}

-- That some end of the text passes the test, the text and the empty one among them.
abbrev pub any_suffix : (Text → Bool) → Text → Bool
any_suffix f [] = f []
any_suffix f (c ∷ s) = f (c ∷ s) || any_suffix f s

abbrev pub stands_for : ℕ → ℕ → Bool
stands_for x c = (x == b'?') || (x == c)

abbrev pub one_byte : ℕ → (Text → Bool) → Text → Bool
one_byte x f [] = false
one_byte x f (c ∷ s) = stands_for x c && f s

-- A star stands for any run of bytes, a question mark for any byte, and a byte for itself.
unfoldable pub is_match : Text → Text → Bool
is_match [] [] = true
is_match [] (c ∷ s) = false
is_match (x ∷ p) s = elim (x == b'*') [
  | true ↦ any_suffix (is_match p) s
  | false ↦ one_byte x (is_match p) s
]

-- No byte of a name is a star.
abbrev pub IsStarless : Text → Type 0
IsStarless s = All (λ c. (c == b'*') ≡ false) s

unfoldable pub any_tail : (Text → Bool) → Text → Bool
any_tail f [] = false
any_tail f (c ∷ s) = any_suffix f s

or_left : (a b : Bool) → a ≡ true → (a || b) ≡ true
or_left true b h = refl
or_left false b h = absurd (false≢true h)

pub or_right : (a b : Bool) → b ≡ true → (a || b) ≡ true
or_right true b h = refl
or_right false b h = h

pub any_suffix-split : (f : Text → Bool) (s : Text) → any_suffix f s ≡ (f s || any_tail f s)
unfolding any_tail
any_suffix-split f [] = elim (Bool-cases (f [])) [ inl t ↦ rw t refl | inr e ↦ rw e refl ]
any_suffix-split f (c ∷ s) = refl

or_inv : (a b : Bool) → (a || b) ≡ true → (a ≡ true) ⊎ (b ≡ true)
or_inv true b h = inl refl
or_inv false b h = inr h

and_right : (a b : Bool) → (a && b) ≡ true → b ≡ true
and_right true b h = h
and_right false b h = absurd (false≢true h)

pub or_absorb : (a b : Bool) → (b ≡ true → a ≡ true) → (a || b) ≡ a
or_absorb true b h = refl
or_absorb false true h = sym (h refl)
or_absorb false false h = refl

pub any_tail-any_suffix : (f : Text → Bool) (s : Text) → any_tail f s ≡ true → any_suffix f s ≡ true
any_tail-any_suffix f s h = any_suffix-split f s ∙ or_right (f s) (any_tail f s) h

pub any_suffix-cong :
    {f g : Text → Bool} → ((s : Text) → f s ≡ g s) → (s : Text) → any_suffix f s ≡ any_suffix g s
any_suffix-cong e [] = e []
any_suffix-cong e (c ∷ s) = ap₂ (λ a b. a || b) (e (c ∷ s)) (any_suffix-cong e s)

-- A byte that is matched may be skipped in every later run.
pub any_suffix-skip :
    (x c : ℕ) (f : Text → Bool) (s : Text)
    → any_suffix (one_byte x f) (c ∷ s) ≡ true
    → any_suffix f s ≡ true
any_suffix-skip x c f [] h = elim (or_inv (stands_for x c && f []) false h) [
  | inl t ↦ and_right (stands_for x c) (f []) t
  | inr e ↦ absurd (false≢true e)
]
any_suffix-skip x c f (d ∷ s) h =
    elim (or_inv (stands_for x c && f (d ∷ s)) (any_suffix (one_byte x f) (d ∷ s)) h) [
      | inl t ↦ or_left (f (d ∷ s)) (any_suffix f s) (and_right (stands_for x c) (f (d ∷ s)) t)
      | inr e ↦ or_right (f (d ∷ s)) (any_suffix f s) (any_suffix-skip x d f s e)
    ]

pub any_suffix-twice :
    (f : Text → Bool) (s : Text) → any_suffix (any_suffix f) s ≡ true → any_suffix f s ≡ true
any_suffix-twice f [] h = h
any_suffix-twice f (c ∷ s) h =
    elim (or_inv (any_suffix f (c ∷ s)) (any_suffix (any_suffix f) s) h) [
      | inl t ↦ t
      | inr e ↦ or_right (f (c ∷ s)) (any_suffix f s) (any_suffix-twice f s e)
    ]

pub is_match-star :
    (x : ℕ) (p s : Text) → (x == b'*') ≡ true → is_match (x ∷ p) s ≡ any_suffix (is_match p) s
unfolding is_match
is_match-star x p s h = rw (is_match, h) refl

pub is_match-byte :
    (x : ℕ) (p s : Text) → (x == b'*') ≡ false → is_match (x ∷ p) s ≡ one_byte x (is_match p) s
unfolding is_match
is_match-byte x p s h = rw (is_match, h) refl

pub is_match-nil : (p : Text) → only_stars p ≡ is_match p []
unfolding is_match only_stars
is_match-nil [] = refl
is_match-nil (x ∷ p) = elim (Bool-cases (x == b'*')) [
  | inl t ↦ rw t (is_match-nil p ∙ sym (is_match-star x p [] t))
  | inr e ↦ rw e (sym (is_match-byte x p [] e))
]
