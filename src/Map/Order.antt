-- ===== src/Map/Order.antt =====
-- The order of the keys in a map of crates/tributary/src/map.rs.
use tributary.Prelude.{
  ◌≡◌, refl, sym, true, false, List, [], ◌∷◌, Text, arith, text_eq, text_eq_iff, text_has_eq, All,
  Bool-cases, inl, inr, subst,
}
use tributary.Map.{text_lt, put, collect}

less-none : (b : Text) → text_lt b [] ≡ true → text_lt [] [] ≡ true
unfolding text_lt
less-none [] h = h
less-none (y ∷ b) h = ground (arith, h)

-- The order of the keys.
text_lt_trans : (a b c : Text) → text_lt a b ≡ true → text_lt b c ≡ true → text_lt a c ≡ true
unfolding text_lt
text_lt_trans [] b [] h k = less-none b k
text_lt_trans [] b (z ∷ c) h k = refl
text_lt_trans (x ∷ a) [] c h k = ground (arith, h)
text_lt_trans (x ∷ a) (y ∷ b) [] h k = ground (arith, k)
text_lt_trans (x ∷ a) (y ∷ b) (z ∷ c) h k = ground (arith, h, k, text_lt_trans a b c)

text_lt_total : (a b : Text) → text_eq a b ≡ false → text_lt a b ≡ false → text_lt b a ≡ true
unfolding text_lt
text_lt_total [] [] h k = ground (arith, h)
text_lt_total [] (y ∷ b) h k = ground (arith, k)
text_lt_total (x ∷ a) [] h k = refl
text_lt_total (x ∷ a) (y ∷ b) h k = ground (arith, h, k, text_lt_total a b)

abbrev Below : Text → Text × Text → Type 0
Below k (j, v) = text_lt k j ≡ true

-- Each key comes before all that follow it, so that none comes twice.
abbrev pub IsOrdered : List (Text × Text) → Type 0
IsOrdered [] = Unit
IsOrdered ((k, v) ∷ m) = All (Below k) m × IsOrdered m

Below-trans :
    (j k : Text) (m : List (Text × Text)) → text_lt j k ≡ true → All (Below k) m → All (Below j) m
Below-trans j k [] h a = tt
Below-trans j k ((i, v) ∷ m) h a = (text_lt_trans j k i h a.0, Below-trans j k m h a.1)

put-Below :
    (j k v : Text) (m : List (Text × Text))
    → text_lt j k ≡ true
    → All (Below j) m
    → All (Below j) (put k v m)
unfolding put
put-Below j k v [] h a = (h, tt)
put-Below j k v ((i, w) ∷ m) h a = elim (Bool-cases (text_eq k i)) [
  | inl same ↦ rw same (h, a.1)
  | inr other ↦ elim (Bool-cases (text_lt k i)) [
    | inl first ↦ rw (other, first) (h, a)
    | inr later ↦ rw (other, later) (a.0, put-Below j k v m h a.1)
  ]
]

put-IsOrdered : (k v : Text) (m : List (Text × Text)) → IsOrdered m → IsOrdered (put k v m)
unfolding put
put-IsOrdered k v [] h = (tt, tt)
put-IsOrdered k v ((i, w) ∷ m) h = elim (Bool-cases (text_eq k i)) [
  | inl same ↦ rw same (subst (λ x. All (Below x) m) (sym ((text_eq_iff k i).0 same)) h.0, h.1)
  | inr other ↦ elim (Bool-cases (text_lt k i)) [
    | inl first ↦ rw (other, first) ((first, Below-trans k i m first h.0), h)
    | inr later ↦
        rw (other, later)
          (put-Below i k v m (text_lt_total k i other later) h.0, put-IsOrdered k v m h.1)
  ]
]

pub collect-IsOrdered : (kvs m : List (Text × Text)) → IsOrdered m → IsOrdered (collect m kvs)
unfolding collect
collect-IsOrdered [] m h = h
collect-IsOrdered ((k, v) ∷ kvs) m h = collect-IsOrdered kvs (put k v m) (put-IsOrdered k v m h)
