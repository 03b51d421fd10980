-- ===== src/Stamp/Extends.antt =====
-- Two stampers of crates/tributary/src/stamp.rs, of which one remembers more ticks than the other.
use tributary.Prelude.{
  suc, ◌≤◌, ◌≡◌, refl, ◌≢◌, true, false, List, [], ◌∷◌, ◌++◌, arith, ltb, ◌==◌, length,
  length-append, All, Bool-cases, Option-cases, inl, inr, sym, ◌∙◌, ap, subst, lookup, insert,
  remove, lookup-insert, lookup-remove, append_assoc,
}
use tributary.Prelude.Int.{ℤ, pos, eq_ℤ_iff, int_has_eq, ◌+ℤ◌, leb_ℤ}
use tributary.Stamp.{
  Stamper, err, exhausted, window, stamp, tick_start, stamps, evict, admit, take_slot,
}
use tributary.Stamp.Window.{length-evict, evict-short, stamp-none, stamp-some}
use tributary.Stamp.Tracked.{NotIn}
use tributary.Stamp.Tracked.{NotIn}

-- `s` remembers what `s'` does, and before that the ticks `front`, which are all `older` ones. On the
-- other ticks they agree.
pub record Extends (older front : List ℤ) (s s' : Stamper) : Type 0 where
  pub width : s.tick_ns ≡ s'.tick_ns
  pub ticks : s.order ≡ front ++ s'.order
  pub short : length s.order ≤ window
  pub fronts : (t : ℤ) → NotIn t older → NotIn t front
  pub agree : (t : ℤ) → NotIn t older → lookup t s.next ≡ lookup t s'.next

module _ (older : List ℤ) where
  abbrev Agree : List (ℤ × ℤ) → List (ℤ × ℤ) → Type 0
  Agree next next' = (t : ℤ) → NotIn t older → lookup t next ≡ lookup t next'

  remove-Agree :
      (o : ℤ) (next next' : List (ℤ × ℤ))
      → Agree next next'
      → Agree (remove o next) (remove o next')
  remove-Agree o next next' h t out =
      lookup-remove o t next ∙ rw (h t out) (sym (lookup-remove o t next'))

  insert-Agree :
      (k v : ℤ) (next next' : List (ℤ × ℤ))
      → Agree next next'
      → Agree (insert k v next) (insert k v next')
  insert-Agree k v next next' h t out =
      lookup-insert k t v next ∙ rw (h t out) (sym (lookup-insert k t v next'))

  remove_older-Agree :
      (o : ℤ) (next next' : List (ℤ × ℤ))
      → ((t : ℤ) → NotIn t older → t ≢ o)
      → Agree next next'
      → Agree (remove o next) next'
  remove_older-Agree o next next' old h t out =
      lookup-remove o t next ∙ ground (arith, old t out, eq_ℤ_iff o t, h t out)

  evict-Agree :
      (order : List ℤ) (next next' : List (ℤ × ℤ))
      → Agree next next'
      → ((evict order next).0 ≡ (evict order next').0)
        × Agree (evict order next).1 (evict order next').1
  unfolding evict
  evict-Agree [] next next' h = (refl, h)
  evict-Agree (o ∷ order) next next' h =
      let rest = evict-Agree order (remove o next) (remove o next') (remove-Agree o next next' h) in
      elim (Bool-cases (ltb window (length (o ∷ order)))) [
        | inl over ↦ rw over rest
        | inr within ↦ rw within (refl, h)
      ]

  -- The pairs of results of an eviction, from a front of older ticks.
  abbrev Evicted : List ℤ × List (ℤ × ℤ) → List ℤ × List (ℤ × ℤ) → Type 0
  Evicted (order, next) (order', next') =
      (front : List ℤ) × (order ≡ front ++ order')
      × ((t : ℤ) → NotIn t older → NotIn t front)
      × Agree next next'

  evict-Evicted :
      (front order : List ℤ) (next next' : List (ℤ × ℤ))
      → length (front ++ order) ≤ suc window
      → ((t : ℤ) → NotIn t older → NotIn t front)
      → Agree next next'
      → Evicted (evict (front ++ order) next) (evict order next')
  evict-Evicted [] order next next' h f a =
      let (same, agree) = evict-Agree order next next' a in ([], same, λ t out. tt, agree)
  evict-Evicted (o ∷ front) order next next' h f a =
      let fits : length order ≤ window = omega (arith, length-append front order) in
      rw (evict-short order next' fits)
        (elim (Bool-cases (ltb window (length (o ∷ front ++ order)))) [
          | inl over ↦
              unfold evict in
              rw (over, evict-short (front ++ order) (remove o next) (omega arith))
                (
                  front,
                  refl,
                  λ t out. (f t out).1,
                  remove_older-Agree o next next' (λ t out. (f t out).0) a,
                )
          | inr within ↦ unfold evict in rw within (o ∷ front, refl, f, a)
        ])

pub tick_ns-stamp_any : (s : Stamper) (x : ℤ) → (stamp s x).1.tick_ns ≡ s.tick_ns
unfolding stamp take_slot admit
tick_ns-stamp_any s x = ground arith

stamps-cong :
    (s s' : Stamper) (x : ℤ) (xs : List ℤ)
    → (stamp s x).0 ≡ (stamp s' x).0
    → stamps (stamp s x).1 xs ≡ stamps (stamp s' x).1 xs
    → stamps s (x ∷ xs) ≡ stamps s' (x ∷ xs)
unfolding stamps
stamps-cong s s' x xs same rest = ground arith

module _ (older : List ℤ) where
  -- The two stampers after one more line, with the same answer.
  abbrev Step : Stamper → Stamper → ℤ → Type 0
  Step s s' x =
      ((stamp s x).0 ≡ (stamp s' x).0)
      × (front : List ℤ) × Extends older front (stamp s x).1 (stamp s' x).1

  admit-Extends :
      (front : List ℤ) (s s' : Stamper) (tick : ℤ)
      → Extends older front s s'
      → (front' : List ℤ) × Extends older front' (admit s tick) (admit s' tick)
  unfolding admit
  admit-Extends front s s' tick h =
      let size : length (s.order ++ tick ∷ []) ≤ suc window =
        omega (arith, length-append s.order (tick ∷ []), h.short) in
      let split : s.order ++ tick ∷ [] ≡ front ++ (s'.order ++ tick ∷ []) =
        rw h.ticks (append_assoc front s'.order (tick ∷ [])) in
      let (front', ticks, fronts, agree) =
        evict-Evicted older front (s'.order ++ tick ∷ []) (insert tick (pos 1) s.next)
          (insert tick (pos 1) s'.next) (subst (λ o. length o ≤ suc window) split size) h.fronts
          (insert-Agree older tick (pos 1) s.next s'.next h.agree) in
      (
        front',
        record {
          width = h.width;
          ticks =
              subst
                (λ o.
                  (evict o (insert tick (pos 1) s.next)).0
                  ≡ front' ++ (evict (s'.order ++ tick ∷ []) (insert tick (pos 1) s'.next)).0)
                (sym split) ticks;
          short = omega (arith, length-evict (s.order ++ tick ∷ []) (insert tick (pos 1) s.next));
          fronts = fronts;
          agree =
              subst
                (λ o.
                  Agree older (evict o (insert tick (pos 1) s.next)).1
                    (evict (s'.order ++ tick ∷ []) (insert tick (pos 1) s'.next)).1)
                (sym split) agree;
        },
      )

  take_slot-Step :
      (front : List ℤ) (s s' : Stamper) (x tick seq : ℤ)
      → Extends older front s s'
      → ((take_slot s x tick seq).0 ≡ (take_slot s' x tick seq).0)
        × Extends older front (take_slot s x tick seq).1 (take_slot s' x tick seq).1
  unfolding take_slot
  take_slot-Step front s s' x tick seq h =
      let next = insert-Agree older tick (seq +ℤ pos 1) s.next s'.next h.agree in
      let same : leb_ℤ (pos s.tick_ns) seq ≡ leb_ℤ (pos s'.tick_ns) seq =
        ap (λ n. leb_ℤ (pos n) seq) h.width in
      elim (Bool-cases (leb_ℤ (pos s.tick_ns) seq)) [
        | inl full ↦ rw (full, sym same ∙ full) (ap (λ n. err (exhausted n x)) h.width, h)
        | inr free ↦
            rw (free, sym same ∙ free)
              (
                refl,
                record {
                  width = h.width;
                  ticks = h.ticks;
                  short = h.short;
                  fronts = h.fronts;
                  agree = next;
                },
              )
      ]

  stamp-Step :
      (front : List ℤ) (s s' : Stamper) (x : ℤ)
      → Extends older front s s'
      → NotIn (tick_start s.tick_ns x) older
      → Step s s' x
  stamp-Step front s s' x h new_tick =
      let tick = tick_start s.tick_ns x in
      let tick_eq : tick_start s'.tick_ns x ≡ tick = ap (λ n. tick_start n x) (sym h.width) in
      let known = h.agree tick new_tick in
      elim (Bool-cases (s.tick_ns == 1)) [
        | inl fine ↦
            let fine' : (s'.tick_ns == 1) ≡ true = ap (λ n. n == 1) (sym h.width) ∙ fine in
            unfold stamp in rw (fine, fine') (refl, front, h)
        | inr coarse ↦
            let coarse' : (s'.tick_ns == 1) ≡ false = ap (λ n. n == 1) (sym h.width) ∙ coarse in
            elim (Option-cases (lookup tick s.next)) [
              | inl e ↦
                  let (front', next) = admit-Extends front s s' tick h in
                  rw
                    (
                      stamp-none s x tick coarse refl e,
                      stamp-none s' x tick coarse' tick_eq (sym known ∙ e),
                    )
                    (refl, front', next)
              | inr (q, e) ↦
                  let (same, next) = take_slot-Step front s s' x tick q h in
                  rw
                    (
                      stamp-some s x tick q coarse refl e,
                      stamp-some s' x tick q coarse' tick_eq (sym known ∙ e),
                    )
                    (same, front, next)
            ]
      ]

  pub stamps-eq :
      (front : List ℤ) (s s' : Stamper) (xs : List ℤ)
      → Extends older front s s'
      → All (λ x. NotIn (tick_start s.tick_ns x) older) xs
      → stamps s xs ≡ stamps s' xs
  stamps-eq front s s' [] h new_ticks = unfold stamps in refl
  stamps-eq front s s' (x ∷ xs) h new_ticks =
      let (same, front', h') = stamp-Step front s s' x h new_ticks.0 in
      let width = tick_ns-stamp_any s x in
      let rest = stamps-eq front' (stamp s x).1 (stamp s' x).1 xs h' (rw width new_ticks.1) in
      stamps-cong s s' x xs same rest
