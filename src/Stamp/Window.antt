-- ===== src/Stamp/Window.antt =====
-- The stamper of crates/tributary/src/stamp.rs seen as one counter for each tick: its next free slot, 0
-- for a tick that it does not remember.
use tributary.Prelude.{
  ◌≤◌, ◌<◌, ◌≡◌, refl, ap, ◌∙◌, false, ◌==◌, Option, none, some, List, [], ◌∷◌, ◌++◌, arith,
  if◌then◌else◌, length, length-append, lookup, insert, remove, lookup-insert, min,
}
use tributary.Prelude.Int.{ℤ, pos, ◌+ℤ◌, leb_ℤ, eq_ℤ, eq_ℤ_iff, i64_add, int_has_eq}
use tributary.Stamp.{
  Stamper, ok, err, exhausted, window, evict, admit, take_slot, stamp, tick_start,
}

abbrev slot_or_zero : Option ℤ → ℤ
slot_or_zero none = pos 0
slot_or_zero (some q) = q

abbrev pub slot : Stamper → ℤ → ℤ
slot s t = slot_or_zero (lookup t s.next)

pub evict-short :
    (order : List ℤ) (next : List (ℤ × ℤ))
    → length order ≤ window
    → evict order next ≡ (order, next)
unfolding evict
evict-short [] next h = refl
evict-short (t ∷ order) next h = ground arith

pub length-evict :
    (order : List ℤ) (next : List (ℤ × ℤ)) → length (evict order next).0 ≡ min (length order) window
unfolding evict
length-evict [] next = omega arith
length-evict (t ∷ order) next = ground (arith, length-evict order (remove t next))

module _ (s : Stamper) (x : ℤ) (coarse : 1 < s.tick_ns) where
  -- The answer: the tick's next free slot, or the error when the tick is full.
  pub stamp-slot : (stamp s x).0 ≡ (
      if leb_ℤ (pos s.tick_ns) (slot s (tick_start s.tick_ns x))
      then err (exhausted s.tick_ns x)
      else ok (i64_add (tick_start s.tick_ns x) (slot s (tick_start s.tick_ns x))))
  unfolding stamp take_slot
  stamp-slot = ground arith

  pub tick_ns-stamp : (stamp s x).1.tick_ns ≡ s.tick_ns
  unfolding stamp take_slot admit
  tick_ns-stamp = ground arith

  pub length_order-stamp : length s.order ≤ window → length s.order ≤ length (stamp s x).1.order
  unfolding stamp take_slot admit
  length_order-stamp h = ground (
    arith,
    length-evict (s.order ++ tick_start s.tick_ns x ∷ [])
        (insert (tick_start s.tick_ns x) (pos 1) s.next),
    length-append s.order (tick_start s.tick_ns x ∷ []),
  )

  pub length_order-le : length s.order ≤ window → length (stamp s x).1.order ≤ window
  unfolding stamp take_slot admit
  length_order-le h = ground (
    arith,
    length-evict (s.order ++ tick_start s.tick_ns x ∷ [])
        (insert (tick_start s.tick_ns x) (pos 1) s.next),
  )

  -- With room in the window, the tick's counter advances by one if a slot was given, and every
  -- other counter stays.
  pub slot-stamp :
      (t : ℤ)
      → length s.order < window
      → slot (stamp s x).1 t ≡ (
          if eq_ℤ (tick_start s.tick_ns x) t
          then (if leb_ℤ (pos s.tick_ns) (slot s (tick_start s.tick_ns x))
              then slot s t
              else slot s t +ℤ pos 1)
          else slot s t)
  unfolding stamp take_slot admit ◌+ℤ◌
  slot-stamp t h = ground (
    arith,
    evict-short (s.order ++ tick_start s.tick_ns x ∷ [])
        (insert (tick_start s.tick_ns x) (pos 1) s.next),
    length-append s.order (tick_start s.tick_ns x ∷ []),
    lookup-insert (tick_start s.tick_ns x) t (pos 1) s.next,
    lookup-insert (tick_start s.tick_ns x) t (slot s (tick_start s.tick_ns x) +ℤ pos 1) s.next,
    eq_ℤ_iff (tick_start s.tick_ns x) t,
  )

module _ (s : Stamper) (x tick : ℤ) where
  pub stamp-none :
      (s.tick_ns == 1) ≡ false
      → tick_start s.tick_ns x ≡ tick
      → lookup tick s.next ≡ none
      → stamp s x ≡ (ok (i64_add tick (pos 0)), admit s tick)
  unfolding stamp
  stamp-none coarse start e = rw (← start, coarse, ap (λ t. lookup t s.next) start ∙ e)

  pub stamp-some :
      (q : ℤ)
      → (s.tick_ns == 1) ≡ false
      → tick_start s.tick_ns x ≡ tick
      → lookup tick s.next ≡ some q
      → stamp s x ≡ take_slot s x tick q
  unfolding stamp
  stamp-some q coarse start e = rw (← start, coarse, ap (λ t. lookup t s.next) start ∙ e)
