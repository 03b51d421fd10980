-- ===== src/Prelude/Sort.antt =====
-- The stable sort of the standard library, as an insertion sort by a Boolean order.
use Prim.Native.Nat.{ℕ, suc}
use mathlib.Core.Path.{◌≡◌, refl}
use mathlib.Core.Bool.{Bool, true, false}
use mathlib.Core.List.{List, [], ◌∷◌}
use native.Mathlib.Omega.{arith}
use tributary.Prelude.Tests.{if◌then◌else◌, Bool-cases}
use tributary.Prelude.Lists.{length, All}
use mathlib.Core.Logic.{inl, inr}

abbrev pub count {ℓ} : {A : Type ℓ} → (A → Bool) → List A → ℕ
count p [] = 0
count p (x ∷ xs) = if p x then suc (count p xs) else count p xs

module _ {ℓ} {A : Type ℓ} (le : A → A → Bool) where
  unfoldable insert_by : A → List A → List A
  insert_by x [] = x ∷ []
  insert_by x (y ∷ ys) = if le x y then x ∷ y ∷ ys else y ∷ insert_by x ys

  unfoldable pub sort_by : List A → List A
  unfolding insert_by
  sort_by [] = []
  sort_by (x ∷ xs) = insert_by x (sort_by xs)

  abbrev pub IsSorted : List A → Type 0
  IsSorted [] = Unit
  IsSorted (x ∷ xs) = All (λ y. le x y ≡ true) xs × IsSorted xs

  All-insert_by {κ} :
      (P : A → Type κ) (x : A) (ys : List A) → P x → All P ys → All P (insert_by x ys)
  unfolding insert_by
  All-insert_by P x [] h k = (h, k)
  All-insert_by P x (y ∷ ys) h k = elim (Bool-cases (le x y)) [
    | inl e ↦ rw e (h, k)
    | inr e ↦ rw e (k.0, All-insert_by P x ys h k.1)
  ]

  pub All-sort_by {κ} : (P : A → Type κ) (xs : List A) → All P xs → All P (sort_by xs)
  All-sort_by P [] h = unfold sort_by in tt
  All-sort_by P (x ∷ xs) h = sorted_cons (All-sort_by P xs h.1)
    where
      sorted_cons : All P (sort_by xs) → All P (sort_by (x ∷ xs))
      sorted_cons k = unfold sort_by in All-insert_by P x (sort_by xs) h.0 k

  count-insert_by :
      (p : A → Bool) (x : A) (ys : List A) → count p (insert_by x ys) ≡ count p (x ∷ ys)
  unfolding insert_by
  count-insert_by p x [] = refl
  count-insert_by p x (y ∷ ys) = ground (arith, count-insert_by p x ys)

  pub count-sort_by : (p : A → Bool) (xs : List A) → count p (sort_by xs) ≡ count p xs
  unfolding sort_by
  count-sort_by p [] = refl
  count-sort_by p (x ∷ xs) = ground (arith, count-insert_by p x (sort_by xs), count-sort_by p xs)

  length-insert_by : (x : A) (ys : List A) → length (insert_by x ys) ≡ suc (length ys)
  unfolding insert_by
  length-insert_by x [] = refl
  length-insert_by x (y ∷ ys) = ground (arith, length-insert_by x ys)

  pub length-sort_by : (xs : List A) → length (sort_by xs) ≡ length xs
  unfolding sort_by
  length-sort_by [] = refl
  length-sort_by (x ∷ xs) = omega (arith, length-insert_by x (sort_by xs), length-sort_by xs)

-- A total and transitive order sorts.
module _ {ℓ} {A : Type ℓ} (le : A → A → Bool) (total : (x y : A) → le x y ≡ false → le y x ≡ true)
    (trans : (x y z : A) → le x y ≡ true → le y z ≡ true → le x z ≡ true) where
  All-trans :
      (x y : A) (ys : List A)
      → le x y ≡ true
      → All (λ z. le y z ≡ true) ys
      → All (λ z. le x z ≡ true) ys
  All-trans x y [] h k = tt
  All-trans x y (z ∷ zs) h k = (trans x y z h k.0, All-trans x y zs h k.1)

  insert_by-IsSorted : (x : A) (ys : List A) → IsSorted le ys → IsSorted le (insert_by le x ys)
  unfolding insert_by
  insert_by-IsSorted x [] s = (tt, tt)
  insert_by-IsSorted x (y ∷ ys) s = elim (Bool-cases (le x y)) [
    | inl e ↦ rw e ((e, All-trans x y ys e s.0), s)
    | inr e ↦
        rw e (
          All-insert_by le (λ z. le y z ≡ true) x ys (total x y e) s.0,
          insert_by-IsSorted x ys s.1,
        )
  ]

  pub sort_by-IsSorted : (xs : List A) → IsSorted le (sort_by le xs)
  unfolding sort_by
  sort_by-IsSorted [] = tt
  sort_by-IsSorted (x ∷ xs) = insert_by-IsSorted x (sort_by le xs) (sort_by-IsSorted xs)
