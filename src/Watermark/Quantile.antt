-- ===== src/Watermark/Quantile.antt =====
-- `estimate` of crates/tributary/src/watermark.rs as an order statistic of the window.
use tributary.Prelude.{
  ℕ, zero, suc, ◌+◌, ◌≤◌, ◌<◌, ◌≡◌, refl, true, false, List, [], ◌∷◌, some, arith, length,
  get_elem?, All, inl, inr, Bool-cases, subst,
}
use tributary.Prelude.Int.{ℤ, ◌≤ℤ◌, ltb_ℤ, leb_ℤ}
use tributary.Prelude.Sort.{
  sort_by, sort_by-IsSorted, IsSorted, count, count-sort_by, length-sort_by,
}
use tributary.Watermark.{Watermark, estimate, min_samples, quantile_index, or_ceiling}

total : (x y : ℤ) → leb_ℤ x y ≡ false → leb_ℤ y x ≡ true
total x y h = ground arith

trans : (x y z : ℤ) → leb_ℤ x y ≡ true → leb_ℤ y z ≡ true → leb_ℤ x z ≡ true
trans x y z h k = ground arith

-- The samples above a bound, and those below it.
abbrev pub over : ℤ → List ℤ → ℕ
over bound = count (λ t. ltb_ℤ bound t)

abbrev pub under : ℤ → List ℤ → ℕ
under bound = count (λ t. ltb_ℤ t bound)

over_whole :
    (bound x : ℤ) (xs : List ℤ)
    → ltb_ℤ bound x ≡ true
    → All (λ y. leb_ℤ x y ≡ true) xs
    → over bound xs ≡ length xs
over_whole bound x [] h k = refl
over_whole bound x (y ∷ ys) h k = ground (arith, over_whole bound x ys h k.1)

get_in_range : (xs : List ℤ) (i : ℕ) → i < length xs → (v : ℤ) × (get_elem? xs i ≡ some v)
get_in_range [] i h = absurd (omega arith)
get_in_range (x ∷ xs) zero h = (x, refl)
get_in_range (x ∷ xs) (suc i) h = get_in_range xs i (omega arith)

get_at_most :
    (bound : ℤ) (xs : List ℤ) (i : ℕ) (v : ℤ)
    → IsSorted leb_ℤ xs
    → over bound xs + i < length xs
    → get_elem? xs i ≡ some v
    → v ≤ℤ bound
get_at_most bound [] i v s h e = absurd (omega arith)
get_at_most bound (x ∷ xs) zero v s h e = elim (Bool-cases (ltb_ℤ bound x)) [
  | inl late ↦ absurd (ground (arith, over_whole bound x xs late s.0))
  | inr early ↦ ground arith
]
get_at_most bound (x ∷ xs) (suc i) v s h e = get_at_most bound xs i v s.1 (ground arith) e

All-get : (P : ℤ → Type 0) (xs : List ℤ) (i : ℕ) (v : ℤ) → All P xs → get_elem? xs i ≡ some v → P v
All-get P [] i v h e = cc
All-get P (x ∷ xs) zero v h e = subst P (ground arith) h.0
All-get P (x ∷ xs) (suc i) v h e = All-get P xs i v h.1 e

get_at_least :
    (bound : ℤ) (xs : List ℤ) (i : ℕ) (v : ℤ)
    → IsSorted leb_ℤ xs
    → under bound xs ≤ i
    → get_elem? xs i ≡ some v
    → bound ≤ℤ v
get_at_least bound [] i v s h e = cc
get_at_least bound (x ∷ xs) zero v s h e = ground arith
get_at_least bound (x ∷ xs) (suc i) v s h e = elim (Bool-cases (ltb_ℤ x bound)) [
  | inl late ↦ get_at_least bound xs i v s.1 (ground arith) e
  | inr early ↦ ground (arith, All-get (λ y. leb_ℤ x y ≡ true) xs i v s.0 e)
]

module _ (w : Watermark) (bound : ℤ) where
  estimate_at :
      min_samples ≤ length w.samples
      → (v : ℤ) × (get_elem? (sort_by leb_ℤ w.samples) (quantile_index (length w.samples)) ≡ some v)
        × (estimate w ≡ or_ceiling w (some v))
  unfolding estimate
  estimate_at many =
      let sorted = sort_by leb_ℤ w.samples in
      let size = length-sort_by leb_ℤ w.samples in
      let (v, e) = get_in_range sorted (quantile_index (length w.samples)) (omega (arith, size)) in
      (v, e, ground (arith, size, e))

  estimate_at_most :
      min_samples ≤ length w.samples
      → over bound w.samples + quantile_index (length w.samples) < length w.samples
      → w.floor_ns ≤ℤ bound
      → estimate w ≤ℤ bound
  estimate_at_most many few low =
      let sorted = sort_by leb_ℤ w.samples in
      let (v, e, is) = estimate_at many in
      let h =
        get_at_most bound sorted (quantile_index (length w.samples)) v
          (sort_by-IsSorted leb_ℤ total trans w.samples)
          (omega (
            arith,
            length-sort_by leb_ℤ w.samples,
            count-sort_by leb_ℤ (λ t. ltb_ℤ bound t) w.samples,
          ))
          e in
      rw is (ground arith)

  estimate_at_least :
      min_samples ≤ length w.samples
      → under bound w.samples ≤ quantile_index (length w.samples)
      → w.floor_ns ≤ℤ w.ceiling_ns
      → bound ≤ℤ w.ceiling_ns
      → bound ≤ℤ estimate w
  estimate_at_least many few ordered high =
      let sorted = sort_by leb_ℤ w.samples in
      let (v, e, is) = estimate_at many in
      let h =
        get_at_least bound sorted (quantile_index (length w.samples)) v
          (sort_by-IsSorted leb_ℤ total trans w.samples)
          (omega (arith, count-sort_by leb_ℤ (λ t. ltb_ℤ t bound) w.samples)) e in
      rw is (ground arith)

-- With a trusted window the estimate lies between any two bounds, of which the lower is below the
-- ceiling and the upper above the floor, if no more samples undercut the lower one than stand before
-- the quantile and no more exceed the upper one than stand behind it.
pub estimate_within :
    (w : Watermark) (low high : ℤ)
    → min_samples ≤ length w.samples
    → under low w.samples ≤ quantile_index (length w.samples)
    → over high w.samples + quantile_index (length w.samples) < length w.samples
    → w.floor_ns ≤ℤ w.ceiling_ns
    → low ≤ℤ w.ceiling_ns
    → w.floor_ns ≤ℤ high
    → (low ≤ℤ estimate w) × (estimate w ≤ℤ high)
estimate_within w low high many under_low over_high ordered low_in high_in = (
  estimate_at_least w low many under_low ordered low_in,
  estimate_at_most w high many over_high high_in,
)
