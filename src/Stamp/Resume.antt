-- ===== src/Stamp/Resume.antt =====
-- `restore` and `checkpoint` of crates/tributary/src/stamp.rs.
use tributary.Prelude.{
  ◌≤◌, ◌<◌, ◌≡◌, refl, ◌≢◌, none, some, List, [], ◌∷◌, ◌++◌, arith, if◌then◌else◌, length, All,
  Bool-cases, inl, inr, sym, ◌∙◌, ap, lookup, insert, last?, last?-append,
}
use tributary.Prelude.Int.{ℤ, pos, eq_ℤ, eq_ℤ_iff, int_has_eq}
use tributary.Stamp.{
  Stamper, window, stamp, tick_start, stamps, after, new, Resolution, tick_of, admit, take_slot,
  restore, checkpoint,
}
use tributary.Stamp.Window.{length-evict}
use tributary.Stamp.Tracked.{NotIn, IsTracked, All-append, after-IsTracked, new-IsTracked}
use tributary.Stamp.Extends.{Extends, tick_ns-stamp_any, stamps-eq}

length_order-after :
    (s : Stamper) (xs : List ℤ) → length s.order ≤ window → length (after s xs).order ≤ window
unfolding after
length_order-after s [] h = h
length_order-after s (x ∷ xs) h = length_order-after (stamp s x).1 xs (
    unfold stamp take_slot admit in
    ground (
      arith,
      length-evict (s.order ++ tick_start s.tick_ns x ∷ [])
          (insert (tick_start s.tick_ns x) (pos 1) s.next),
    ))

tick_ns-after : (s : Stamper) (xs : List ℤ) → (after s xs).tick_ns ≡ s.tick_ns
unfolding after
tick_ns-after s [] = refl
tick_ns-after s (x ∷ xs) = tick_ns-after (stamp s x).1 xs ∙ tick_ns-stamp_any s x

restore-Extends :
    (s s' : Stamper) (older : List ℤ) (t q : ℤ)
    → IsTracked s
    → length s.order ≤ window
    → s.order ≡ older ++ t ∷ []
    → lookup t s.next ≡ some q
    → s'.tick_ns ≡ s.tick_ns
    → s'.order ≡ t ∷ []
    → ((u : ℤ) → lookup u s'.next ≡ (if eq_ℤ t u then some q else none))
    → Extends older older s s'
restore-Extends s s' older t q k short order e width order' next' = record {
  width = sym width;
  ticks = order ∙ ap (◌++◌ older) (sym order');
  short = short;
  fronts = λ u out. out;
  agree = λ u out. elim (Bool-cases (eq_ℤ t u)) [
    | inl same ↦ rw (next', same) (ap (λ v. lookup v s.next) (sym ((eq_ℤ_iff t u).0 same)) ∙ e)
    | inr other ↦
        rw (next', other)
          (k.absent u (
            rw order (
              All-append (λ o. u ≢ o) older (t ∷ []) out
                (λ (p : u ≡ t). ground (arith, eq_ℤ_iff t u), tt))))
  ];
}

checkpoint_found :
    (s : Stamper) (older : List ℤ) (t q : ℤ)
    → s.order ≡ older ++ t ∷ []
    → checkpoint s ≡ some (t, q)
    → lookup t s.next ≡ some q
unfolding checkpoint
checkpoint_found s older t q order cp =
    let newest : last? s.order ≡ some t = ap last? order ∙ last?-append older t in ground arith

-- A run from a new stamper is checkpointed at its newest tick `t`, whose next free slot is `q`. A
-- new stamper restored from (t, q) then gives every later stream the timestamps that the first
-- would have given, if none of its lines falls into one of the ticks before `t`.
pub stamps-restore :
    (r : Resolution) (xs ys older : List ℤ) (t q : ℤ)
    → 1 < tick_of r
    → checkpoint (after (new r) xs) ≡ some (t, q)
    → (after (new r) xs).order ≡ older ++ t ∷ []
    → All (λ y. NotIn (tick_start (tick_of r) y) older) ys
    → stamps (restore (new r) t q) ys ≡ stamps (after (new r) xs) ys
stamps-restore r xs ys older t q coarse cp order new_ticks =
    let s = after (new r) xs in
    let width : s.tick_ns ≡ tick_of r = unfold new in tick_ns-after (new r) xs in
    let found : lookup t s.next ≡ some q = checkpoint_found s older t q order cp in
    let h : Extends older older s (restore (new r) t q) =
      restore-Extends s (restore (new r) t q) older t q
        (after-IsTracked (new r) xs (new-IsTracked r))
        (length_order-after (new r) xs (unfold new in omega arith)) order found
        (unfold new restore in ground (arith, width)) (unfold new restore in ground arith)
        (λ u. unfold new restore insert lookup in ground arith) in
    sym (stamps-eq older older s (restore (new r) t q) ys h (rw width new_ticks))
