-- ===== src/Stamp/Tracked.antt =====
-- The ticks that a stamper of crates/tributary/src/stamp.rs has counters of.
use tributary.Prelude.{
  ◌≡◌, refl, ◌≢◌, none, some, List, [], ◌∷◌, ◌++◌, arith, ltb, ◌==◌, length, All, Bool-cases,
  Option-cases, inl, inr, lookup, insert, remove, lookup-insert, lookup-remove,
}
use tributary.Prelude.Int.{ℤ, pos, eq_ℤ, eq_ℤ_iff, int_has_eq, ◌+ℤ◌}
use tributary.Stamp.{
  Stamper, window, stamp, tick_start, after, new, Resolution, evict, admit, take_slot,
}

-- The tick is none of these.
abbrev pub NotIn : ℤ → List ℤ → Type 0
NotIn t order = All (λ o. t ≢ o) order

-- The counters are of remembered ticks only.
pub record IsTracked (s : Stamper) : Type 0 where
  pub absent : (t : ℤ) → NotIn t s.order → lookup t s.next ≡ none

abbrev Tracks : List ℤ → List (ℤ × ℤ) → Type 0
Tracks order next = (t : ℤ) → NotIn t order → lookup t next ≡ none

All-append_left {ℓ κ} : {A : Type ℓ} (P : A → Type κ) (xs ys : List A) → All P (xs ++ ys) → All P xs
All-append_left P [] ys h = tt
All-append_left P (x ∷ xs) ys h = (h.0, All-append_left P xs ys h.1)

All-append_right {ℓ κ} :
    {A : Type ℓ} (P : A → Type κ) (xs ys : List A) → All P (xs ++ ys) → All P ys
All-append_right P [] ys h = h
All-append_right P (x ∷ xs) ys h = All-append_right P xs ys h.1

pub All-append {ℓ κ} :
    {A : Type ℓ} (P : A → Type κ) (xs ys : List A) → All P xs → All P ys → All P (xs ++ ys)
All-append P [] ys h k = k
All-append P (x ∷ xs) ys h k = (h.0, All-append P xs ys h.1 k)

remove-Tracks :
    (o : ℤ) (order : List ℤ) (next : List (ℤ × ℤ))
    → Tracks (o ∷ order) next
    → Tracks order (remove o next)
remove-Tracks o order next h t out = elim (Bool-cases (eq_ℤ o t)) [
  | inl same ↦ rw lookup-remove (rw same)
  | inr other ↦ rw (lookup-remove, other) (h t ((λ (e : t ≡ o). ground (arith, eq_ℤ_iff o t)), out))
]

evict-Tracks :
    (order : List ℤ) (next : List (ℤ × ℤ))
    → Tracks order next
    → Tracks (evict order next).0 (evict order next).1
unfolding evict
evict-Tracks [] next h = h
evict-Tracks (o ∷ order) next h =
    let rest = evict-Tracks order (remove o next) (remove-Tracks o order next h) in
    elim (Bool-cases (ltb window (length (o ∷ order)))) [
      | inl over ↦ rw (over) rest
      | inr within ↦ rw (within) h
    ]

admit-IsTracked : (s : Stamper) (tick : ℤ) → IsTracked s → IsTracked (admit s tick)
unfolding admit
admit-IsTracked s tick k = record {
  absent = evict-Tracks (s.order ++ tick ∷ []) (insert tick (pos 1) s.next) λ t out.
      let other = (All-append_right (λ o. t ≢ o) s.order (tick ∷ []) out).0 in
      rw lookup-insert (
        ground (
          arith,
          eq_ℤ_iff tick t,
          k.absent t (All-append_left (λ o. t ≢ o) s.order (tick ∷ []) out),
          other,
        ));
}

take_slot-IsTracked :
    (s : Stamper) (x tick seq : ℤ)
    → lookup tick s.next ≡ some seq
    → IsTracked s
    → IsTracked (take_slot s x tick seq).1
unfolding take_slot
take_slot-IsTracked s x tick seq e k = record {
  absent = λ t out. ground (
    arith,
    λ (o : NotIn t s.order). k.absent t o,
    lookup-insert tick t (seq +ℤ pos 1) s.next,
    eq_ℤ_iff tick t,
  );
}

stamp-IsTracked : (s : Stamper) (x : ℤ) → IsTracked s → IsTracked (stamp s x).1
stamp-IsTracked s x k =
    let tick = tick_start s.tick_ns x in
    elim (Bool-cases (s.tick_ns == 1)) [
      | inl fine ↦ unfold stamp in rw fine k
      | inr coarse ↦ elim (Option-cases (lookup tick s.next)) [
        | inl e ↦ unfold stamp in rw (coarse, e) (admit-IsTracked s tick k)
        | inr (q, e) ↦ unfold stamp in rw (coarse, e) (take_slot-IsTracked s x tick q e k)
      ]
    ]

pub after-IsTracked : (s : Stamper) (xs : List ℤ) → IsTracked s → IsTracked (after s xs)
unfolding after
after-IsTracked s [] k = k
after-IsTracked s (x ∷ xs) k = after-IsTracked (stamp s x).1 xs (stamp-IsTracked s x k)

pub new-IsTracked : (r : Resolution) → IsTracked (new r)
unfolding new lookup
new-IsTracked r = record { absent = λ t out. refl }
