-- ===== src/Tail/Lines.antt =====
-- The lines of a file, as crates/tributary/src/tail.rs reads them.
use tributary.Prelude.{
  ℕ, zero, suc, ◌≤◌, length-drop, ◌+◌, ◌≡◌, ◌∙◌, refl, sym, ap, true, false, List, [], ◌∷◌, ◌++◌,
  map, Option, none, some, Text, arith, ◌==◌, if◌then◌else◌, length, drop, Bool-cases, inl, inr,
  subst,
}
use tributary.Tail.{Fs, Open, node, contents, size, cut, chomp, read_line, drain_files}

-- The whole lines of a text, and what is behind the last newline.
abbrev prepend : ℕ → List Text × Text → List Text × Text
prepend c ([], rest) = ([], c ∷ rest)
prepend c (l ∷ ls, rest) = ((c ∷ l) ∷ ls, rest)

unfoldable pub whole : Text → List Text × Text
whole [] = ([], [])
whole (c ∷ s) = let w = whole s in if c == b'\n' then ([] ∷ w.0, w.1) else prepend c w

-- The cut of the first line agrees with the lines.
abbrev Cuts : Text → Option (Text × Text) → Type 0
Cuts s none = (whole s).0 ≡ []
Cuts s (some (l, r)) =
    ((whole s).0 ≡ l ∷ (whole r).0)
    × (drop (suc (length l)) s ≡ r)
    × (length s ≡ suc (length l) + length r)

prepend-none : (c : ℕ) (w : List Text × Text) → w.0 ≡ [] → (prepend c w).0 ≡ []
prepend-none c ([], rest) e = refl
prepend-none c (l ∷ ls, rest) e = ground (arith, e)

prepend-some :
    (c : ℕ) (w : List Text × Text) (l : Text) (ls : List Text)
    → w.0 ≡ l ∷ ls
    → (prepend c w).0 ≡ (c ∷ l) ∷ ls
prepend-some c ([], rest) l ls e = ground (arith, e)
prepend-some c (k ∷ ks, rest) l ls e = ground (arith, e)

abbrev push : ℕ → Option (Text × Text) → Option (Text × Text)
push c none = none
push c (some (l, r)) = some (c ∷ l, r)

cut-other : (c : ℕ) (s : Text) → (c == b'\n') ≡ false → cut (c ∷ s) ≡ push c (cut s)
unfolding cut
cut-other c s f =
    rw f
      (elim (cut s)
        as (λ o.
          elim o as (λ x. Option (Text × Text)) [ none ↦ none | some (l, r) ↦ some (c ∷ l, r) ]
          ≡ push c o) [ none ↦ refl | some lr ↦ refl ])

whole-other : (c : ℕ) (s : Text) → (c == b'\n') ≡ false → whole (c ∷ s) ≡ prepend c (whole s)
unfolding whole
whole-other c s f = rw f

whole-newline :
    (c : ℕ) (s : Text) → (c == b'\n') ≡ true → whole (c ∷ s) ≡ ([] ∷ (whole s).0, (whole s).1)
unfolding whole
whole-newline c s t = rw t

cut-newline : (c : ℕ) (s : Text) → (c == b'\n') ≡ true → cut (c ∷ s) ≡ some ([], s)
unfolding cut
cut-newline c s t = rw t

push-Cuts :
    (c : ℕ) (s : Text) (o : Option (Text × Text))
    → (c == b'\n') ≡ false
    → Cuts s o
    → Cuts (c ∷ s) (push c o)
push-Cuts c s none f k = ap (λ w. w.0) (whole-other c s f) ∙ prepend-none c (whole s) k
push-Cuts c s (some (l, r)) f k = (
  ap (λ w. w.0) (whole-other c s f) ∙ prepend-some c (whole s) l (whole r).0 k.0,
  k.1,
  omega (arith, k.2),
)

cut-Cuts : (s : Text) → Cuts s (cut s)
cut-Cuts [] = unfold cut whole in refl
cut-Cuts (c ∷ s) = elim (Bool-cases (c == b'\n')) [
  | inl t ↦
      subst (Cuts (c ∷ s)) (sym (cut-newline c s t))
        (ap (λ w. w.0) (whole-newline c s t), refl, omega arith)
  | inr f ↦ subst (Cuts (c ∷ s)) (sym (cut-other c s f)) (push-Cuts c s (cut s) f (cut-Cuts s))
]

-- The lines of an open file from its offset on.
abbrev pub rest : Fs → Open → Text
rest fs o = drop o.offset (contents fs (node o))

abbrev pub lines : Fs → Open → List Text
lines fs o = map chomp (whole (rest fs o)).0

abbrev pub all_lines : Fs → List Open → List Text
all_lines fs [] = []
all_lines fs (o ∷ os) = lines fs o ++ all_lines fs os

pub drop-nil : {A : Type 0} (k : ℕ) → drop {A = A} k [] ≡ []
drop-nil zero = refl
drop-nil (suc k) = refl

suc_add : (a b : ℕ) → suc a + b ≡ suc (a + b)
suc_add a b = omega arith

zero_add : (b : ℕ) → 0 + b ≡ b
zero_add b = omega arith

drop-drop : {A : Type 0} (m n : ℕ) (xs : List A) → drop (m + n) xs ≡ drop n (drop m xs)
drop-drop zero n xs = ap (λ k. drop k xs) (zero_add n)
drop-drop (suc m) n [] = drop-nil (suc m + n) ∙ sym (drop-nil n)
drop-drop (suc m) n (x ∷ xs) = ap (λ k. drop k (x ∷ xs)) (suc_add m n) ∙ drop-drop m n xs

-- The same file, further on.
pub record Later (fs : Fs) (o o' : Open) : Type 0 where
  pub same : node o' ≡ node o
  pub within : o'.offset ≤ size fs o'

-- What a read of these lines answers.
abbrev pub Reads : Fs → Open → List Text → Option Text × Open → Type 0
Reads fs o [] (line, o') = (line ≡ none) × (o' ≡ o)
Reads fs o (l ∷ ls) (line, o') = (line ≡ some l) × (lines fs o' ≡ ls) × Later fs o o'

abbrev taken : Open → Option (Text × Text) → Option Text × Open
taken o none = (none, o)
taken o (some (l, r)) = (some (chomp l), record o { offset = o.offset + suc (length l) })

read_line-taken : (fs : Fs) (o : Open) → read_line fs o ≡ taken o (cut (rest fs o))
unfolding read_line
read_line-taken fs o =
    elim (cut (rest fs o))
      as (λ c.
        elim c as (λ x. Option Text × Open) [
          | none ↦ (none, o)
          | some (l, r) ↦ (some (chomp l), record o { offset = o.offset + suc (length l) })
        ]
        ≡ taken o c) [ none ↦ refl | some lr ↦ refl ]

taken-Reads :
    (fs : Fs) (o : Open) (c : Option (Text × Text))
    → Cuts (rest fs o) c
    → Reads fs o (lines fs o) (taken o c)
taken-Reads fs o none k = subst (λ ls. Reads fs o (map chomp ls) (none, o)) (sym k) (refl, refl)
taken-Reads fs o (some (l, r)) k =
    subst (λ ls. Reads fs o (map chomp ls) (taken o (some (l, r)))) (sym k.0)
      (
        refl,
        ap (λ x. map chomp (whole x).0)
            (drop-drop o.offset (suc (length l)) (contents fs (node o)) ∙ k.1),
        record {
          same = refl;
          within = unfold size in omega (arith, k.2, length-drop o.offset (contents fs (node o)));
        },
      )

pub read_line-Reads : (fs : Fs) (o : Open) → Reads fs o (lines fs o) (read_line fs o)
read_line-Reads fs o =
    subst (Reads fs o (lines fs o)) (sym (read_line-taken fs o))
      (taken-Reads fs o (cut (rest fs o)) (cut-Cuts (rest fs o)))

-- What the loop over the rotated files answers.
abbrev pub Drains : Fs → List Text → Option Text × List Open → Type 0
Drains fs [] (line, os) = (line ≡ none) × (os ≡ [])
Drains fs (l ∷ ls) (line, os) = (line ≡ some l) × (all_lines fs os ≡ ls)

abbrev drained : Fs → List Open → Option Text × Open → Option Text × List Open
drained fs os (none, o) = drain_files fs os
drained fs os (some l, o) = (some l, o ∷ os)

drain_files-cons :
    (fs : Fs) (o : Open) (os : List Open) → drain_files fs (o ∷ os) ≡ drained fs os (read_line fs o)
unfolding drain_files
drain_files-cons fs o os =
    elim (read_line fs o).0
      as (λ x.
        elim x as (λ y. Option Text × List Open) [
          | none ↦ drain_files fs os
          | some l ↦ (some l, (read_line fs o).1 ∷ os)
        ]
        ≡ drained fs os (x, (read_line fs o).1)) [ none ↦ refl | some l ↦ refl ]

drained-Drains :
    (fs : Fs) (o : Open) (os : List Open) (r : Option Text × Open) (ls : List Text)
    → Reads fs o ls r
    → Drains fs (all_lines fs os) (drain_files fs os)
    → Drains fs (ls ++ all_lines fs os) (drained fs os r)
drained-Drains fs o os (none, o') [] k h = h
drained-Drains fs o os (some l, o') [] k h = ground (arith, k.0)
drained-Drains fs o os (none, o') (x ∷ xs) k h = ground (arith, k.0)
drained-Drains fs o os (some l, o') (x ∷ xs) k h = (k.0, ap (λ ys. ys ++ all_lines fs os) k.1)

-- The loop takes the first line of all, in the order of the files; if there is none, all are closed.
pub drain_files-Drains :
    (fs : Fs) (os : List Open) → Drains fs (all_lines fs os) (drain_files fs os)
drain_files-Drains fs [] = unfold drain_files in (refl, refl)
drain_files-Drains fs (o ∷ os) =
    subst (Drains fs (lines fs o ++ all_lines fs os)) (sym (drain_files-cons fs o os)) (
      drained-Drains fs o os (read_line fs o) (lines fs o) (read_line-Reads fs o)
        (drain_files-Drains fs os))
