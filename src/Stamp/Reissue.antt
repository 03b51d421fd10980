-- ===== src/Stamp/Reissue.antt =====
-- `out_of_window` of crates/tributary/src/stamp.rs, and the order in which the window forgets.
use tributary.Prelude.{
  ◌<◌, ◌≡◌, refl, ◌≢◌, ap, ◌∙◌, none, List, [], ◌∷◌, ◌++◌, arith, length, length-append, lookup,
  insert, remove, lookup-remove, false,
}
use tributary.Prelude.Int.{ℤ, pos, ◌≤ℤ◌, i64_add, int_has_eq, eq_ℤ_iff}
use tributary.Stamp.{Stamper, Stamped, ok, window, evict, admit, stamp, tick_start, before_oldest}
use tributary.Stamp.Window.{evict-short, stamp-none}

-- One insertion too many forgets the oldest insertion.
evict-full :
    (o : ℤ) (order : List ℤ) (next : List (ℤ × ℤ))
    → length order ≡ window
    → evict (o ∷ order) next ≡ (order, remove o next)
unfolding evict
evict-full o order next h = ground (arith, evict-short order (remove o next))

admit_known :
    (s : Stamper) (t : ℤ) (order : List ℤ) (next : List (ℤ × ℤ))
    → evict (s.order ++ t ∷ []) (insert t (pos 1) s.next) ≡ (order, next)
    → before_oldest t s.order ≡ false
    → admit s t ≡ record s { next = next; order = order }
unfolding admit
admit_known s t order next e b = rw (e, b)

module _ (s : Stamper) (x y u : ℤ) (rest : List ℤ) where
  -- A full window whose oldest insertion is the tick of `x`, though the next one, `u`, is not after
  -- it; a line `y` of a new tick that is not before it either pushes it out. A second line of the
  -- tick of `x` is then given the tick's first slot again, and no line was counted.
  pub stamp_reissues :
      1 < s.tick_ns
      → s.order ≡ tick_start s.tick_ns x ∷ u ∷ rest
      → length s.order ≡ window
      → u ≤ℤ tick_start s.tick_ns x
      → tick_start s.tick_ns x ≤ℤ tick_start s.tick_ns y
      → tick_start s.tick_ns x ≢ tick_start s.tick_ns y
      → lookup (tick_start s.tick_ns y) s.next ≡ none
      → ((stamp (stamp s y).1 x).0 ≡ ok (i64_add (tick_start s.tick_ns x) (pos 0)))
        × ((stamp (stamp s y).1 x).1.out_of_window ≡ s.out_of_window)
  unfolding before_oldest
  stamp_reissues coarse order full early late other fresh =
      let t = tick_start s.tick_ns x in
      let t' = tick_start s.tick_ns y in
      let size : length (u ∷ rest ++ t' ∷ []) ≡ window =
        omega (arith, length-append rest (t' ∷ []), ap length order) in
      let evicted : evict (s.order ++ t' ∷ []) (insert t' (pos 1) s.next)
          ≡ (u ∷ rest ++ t' ∷ [], remove t (insert t' (pos 1) s.next)) =
        ap (λ o. evict (o ++ t' ∷ []) (insert t' (pos 1) s.next)) order
        ∙ evict-full t (u ∷ rest ++ t' ∷ []) (insert t' (pos 1) s.next) size in
      let forgotten : lookup t (remove t (insert t' (pos 1) s.next)) ≡ none =
        lookup-remove t t (insert t' (pos 1) s.next) ∙ ground (arith, eq_ℤ_iff t t) in
      let s₁ : Stamper = record s {
        next = remove t (insert t' (pos 1) s.next);
        order = u ∷ rest ++ t' ∷ [];
      } in
      let first : (stamp s y).1 ≡ s₁ =
        ap (λ (r : Stamped × Stamper). r.1) (stamp-none s y t' (ground arith) refl fresh)
        ∙ admit_known s t' _ _ evicted (rw order (ground arith)) in
      let second : stamp s₁ x ≡ (ok (i64_add t (pos 0)), admit s₁ t) =
        stamp-none s₁ x t (ground arith) refl forgotten in
      rw (first, second) (refl, unfold admit in ground arith)
