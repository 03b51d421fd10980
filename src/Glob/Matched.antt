-- ===== src/Glob/Matched.antt =====
-- `wildcard` of crates/tributary/src/glob.rs against the definition of a match.
use tributary.Prelude.{
  ℕ, zero, suc, ◌+◌, ◌*◌, ◌≤◌, ◌<◌, ◌≡◌, ◌∙◌, refl, sym, ap, Bool, true, false, ◌||◌, [], ◌∷◌, none,
  some, Text, arith, ◌==◌, length, Bool-cases, inl, inr,
}
use tributary.Glob.{same, Star, only_stars, retry, scan, wildcard}
use tributary.Glob.Match.{
  stands_for, any_suffix, any_tail, is_match, IsStarless, or_absorb, any_tail-any_suffix,
  any_suffix-cong, any_suffix-split, any_suffix-skip, any_suffix-twice, is_match-star,
  is_match-byte, is_match-nil,
}

starless-byte : (x c : ℕ) → same x c ≡ true → (c == b'*') ≡ false → (x == b'*') ≡ false
unfolding same
starless-byte x c h k = ground arith

same-stands_for : (x c : ℕ) → same x c ≡ stands_for x c
unfolding same
same-stands_for x c = refl

-- One turn of the loop.
module _ (n x c : ℕ) (p s : Text) (star : Star) where
  scan-same : same x c ≡ true → scan (suc n) (x ∷ p) (c ∷ s) star ≡ scan n p s star
  unfolding scan
  scan-same h = rw (scan, h) refl

  scan-star :
      same x c ≡ false
      → (x == b'*') ≡ true
      → scan (suc n) (x ∷ p) (c ∷ s) star ≡ scan n p (c ∷ s) (some (p, c ∷ s))
  unfolding scan
  scan-star h t = rw (scan, h, t) refl

  scan-other :
      same x c ≡ false
      → (x == b'*') ≡ false
      → scan (suc n) (x ∷ p) (c ∷ s) star ≡ retry star (scan n)
  unfolding scan
  scan-other h e = rw (scan, h, e) refl

-- What the rest of the loop has to find out, and how much is left to try.
module _ (answer : Bool) (k : ℕ) where
  abbrev Holds : Text → Text → Star → Type 0
  Holds p s none = answer ≡ is_match p s
  Holds p s (some (q, mark)) =
      (answer ≡ (is_match p s || any_tail (is_match q) mark))
      × (any_tail (is_match q) mark ≡ true → any_suffix (is_match p) s ≡ true)
      × (length s ≤ length mark)

  abbrev Left : ℕ → Text → Star → Type 0
  Left m s none = length s ≤ m
  Left m s (some (q, mark)) = (length mark ≤ m) × (length q < k) × IsStarless mark

  module _ (n : ℕ)
      (later : (m : ℕ) (p s : Text) (star : Star)
        → Holds p s star
        → Left m s star
        → IsStarless s
        → length p < k
        → m * k + length p < n
        → scan n p s star ≡ some answer) where
    retry-finds :
        (m : ℕ) (p s : Text) (star : Star)
        → Holds p s star
        → Left m s star
        → 0 < length s
        → is_match p s ≡ false
        → m * k + length p < suc n
        → retry star (scan n) ≡ some answer
    unfolding any_tail
    retry-finds m p s none h l more fails fuel = ap some (sym (h ∙ fails))
    retry-finds m p s (some (q, [])) h l more fails fuel = absurd (omega (arith, h.2))
    retry-finds zero p s (some (q, c ∷ mark)) h l more fails fuel = absurd (omega (arith, l.0))
    retry-finds (suc m) p s (some (q, c ∷ mark)) h l more fails fuel =
        later m q mark (some (q, mark))
          (
            h.0 ∙ rw fails (any_suffix-split (is_match q) mark),
            any_tail-any_suffix (is_match q) mark,
            omega arith,
          )
          (omega (arith, l.0), l.1, l.2.1) l.2.1 l.1 (omega (arith, l.1))

    -- The name goes on by a byte that the pattern has too.
    byte-Holds :
        (x c : ℕ) (p s : Text) (star : Star)
        → (x == b'*') ≡ false
        → same x c ≡ true
        → Holds (x ∷ p) (c ∷ s) star
        → Holds p s star
    byte-Holds x c p s none e t h =
        h ∙ is_match-byte x p (c ∷ s) e ∙ rw (sym (same-stands_for x c) ∙ t) refl
    byte-Holds x c p s (some (q, mark)) e t h = (
      h.0
          ∙ ap (λ b. b || any_tail (is_match q) mark)
              (is_match-byte x p (c ∷ s) e ∙ rw (sym (same-stands_for x c) ∙ t) refl),
      λ u.
          any_suffix-skip x c (is_match p) s
            (sym (any_suffix-cong (λ r. is_match-byte x p r e) (c ∷ s)) ∙ h.1 u),
      omega (arith, h.2),
    )

    star-Holds :
        (x : ℕ) (p s : Text) (star : Star)
        → (x == b'*') ≡ true
        → Holds (x ∷ p) s star
        → Holds p s (some (p, s))
    star-Holds x p s none t h = (
      h ∙ is_match-star x p s t ∙ any_suffix-split (is_match p) s,
      any_tail-any_suffix (is_match p) s,
      omega arith,
    )
    star-Holds x p s (some (q, mark)) t h = (
      h.0
          ∙ or_absorb (is_match (x ∷ p) s) (any_tail (is_match q) mark) (λ u.
            is_match-star x p s t
            ∙ any_suffix-twice (is_match p) s
                (sym (any_suffix-cong (λ r. is_match-star x p r t) s) ∙ h.1 u))
          ∙ is_match-star x p s t
          ∙ any_suffix-split (is_match p) s,
      any_tail-any_suffix (is_match p) s,
      omega arith,
    )

    finish-finds : (p : Text) (star : Star) → Holds p [] star → some (only_stars p) ≡ some answer
    finish-finds p none h = ap some (is_match-nil p ∙ sym h)
    finish-finds p (some (q, mark)) h =
        ap some
          (is_match-nil p ∙ sym (h.0 ∙ or_absorb (is_match p []) (any_tail (is_match q) mark) h.1))

  Left-tail : (m c : ℕ) (s : Text) (star : Star) → Left m (c ∷ s) star → Left m s star
  Left-tail m c s none l = omega (arith, l)
  Left-tail m c s (some (q, mark)) l = l

  Left-star :
      (m : ℕ) (p s : Text) (star : Star) (t : Text)
      → Holds p s star
      → Left m s star
      → IsStarless s
      → length t < k
      → Left m s (some (t, s))
  Left-star m p s none t h l w b = (l, b, w)
  Left-star m p s (some (q, mark)) t h l w b = (omega (arith, h.2, l.0), b, w)

  scan-finds :
      (n m : ℕ) (p s : Text) (star : Star)
      → Holds p s star
      → Left m s star
      → IsStarless s
      → length p < k
      → m * k + length p < n
      → scan n p s star ≡ some answer
  unfolding scan is_match
  scan-finds zero m p s star h l w b fuel = absurd (omega arith)
  scan-finds (suc n) m p [] star h l w b fuel = finish-finds n (scan-finds n) p star h
  scan-finds (suc n) m [] (c ∷ s) star h l w b fuel =
      retry-finds n (scan-finds n) m [] (c ∷ s) star h l (omega arith) refl fuel
  scan-finds (suc n) m (x ∷ p) (c ∷ s) star h l w b fuel = elim (Bool-cases (same x c)) [
    | inl t ↦
        scan-same n x c p s star t
        ∙ scan-finds n m p s star
            (byte-Holds n (scan-finds n) x c p s star (starless-byte x c t w.0) t h)
            (Left-tail m c s star l) w.1 (omega arith) (omega arith)
    | inr e ↦ elim (Bool-cases (x == b'*')) [
      | inl t ↦
          scan-star n x c p s star e t
          ∙ scan-finds n m p (c ∷ s) (some (p, c ∷ s))
              (star-Holds n (scan-finds n) x p (c ∷ s) star t h)
              (Left-star m (x ∷ p) (c ∷ s) star p h l w (omega arith)) w (omega arith) (omega arith)
      | inr d ↦
          scan-other n x c p s star e d
          ∙ retry-finds n (scan-finds n) m (x ∷ p) (c ∷ s) star h l (omega arith)
              (is_match-byte x p (c ∷ s) d ∙ rw e refl) fuel
    ]
  ]

-- The loop ends within its fuel, and for a name without a star in it the answer is right: the pattern
-- is found to match exactly if some choice of runs for its stars makes it the name.
pub wildcard-match : (pat s : Text) → IsStarless s → wildcard pat s ≡ some (is_match pat s)
unfolding wildcard
wildcard-match pat s w =
    scan-finds (is_match pat s) (length pat + 1) (suc ((length s + 1) * (length pat + 1)))
      (length s) pat s none refl (omega arith) w (omega arith) (omega arith)

scan-nil : (n c : ℕ) (s : Text) → 0 < n → scan n [] (c ∷ s) none ≡ some false
unfolding scan
scan-nil zero c s h = absurd (omega arith)
scan-nil (suc n) c s h = refl

every_name : (t : Text) → is_match (b'*' ∷ []) t ≡ true
unfolding is_match
every_name [] = refl
every_name (c ∷ t) = every_name t

-- A star of the pattern that meets a star of the name stands for that byte alone: a name of two bytes
-- or more that begins with a star does not match the pattern of one star, which every name should.
pub wildcard-starred :
    (c : ℕ) (s : Text)
    → (wildcard (b'*' ∷ []) (b'*' ∷ c ∷ s) ≡ some false)
      × (is_match (b'*' ∷ []) (b'*' ∷ c ∷ s) ≡ true)
unfolding wildcard same
wildcard-starred c s = (
  scan-same ((length (b'*' ∷ c ∷ s) + 1) * 2) b'*' b'*' [] (c ∷ s) none refl
      ∙ scan-nil ((length (b'*' ∷ c ∷ s) + 1) * 2) c s (omega arith),
  every_name (b'*' ∷ c ∷ s),
)
