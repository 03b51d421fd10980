-- ===== src/Stamp/Unique.antt =====
-- The timestamps given to one stream by crates/tributary/src/stamp.rs.
use tributary.Prelude.{
  ℕ, ◌≤◌, ◌<◌, ◌≡◌, refl, ◌≢◌, List, [], ◌∷◌, arith, if◌then◌else◌, length, All, Distinct, inl, inr,
  ◌⊎◌, lookup, ◌∙◌, ap,
}
use tributary.Prelude.Int.{
  ℤ, pos, ◌+ℤ◌, ◌-ℤ◌, ◌≤ℤ◌, ◌<ℤ◌, leb_ℤ, eq_ℤ_iff, i64_add, i64_min, i64_max, int_laws,
  i64_add_exact, i64_sub_exact, floor_to, floor_to-slot, rem_euclid, rem_euclid-lt, +ℤ_parts,
  pos_part, neg_part,
}
use tributary.Stamp.{
  Stamper, Stamped, ok, err, exhausted, window, stamp, tick_start, stamps, after, new, Resolution,
  tick_of, StampError,
}
use tributary.Stamp.Window.{
  slot, stamp-slot, tick_ns-stamp, length_order-stamp, length_order-le, slot-stamp,
}

-- A source timestamp at least one tick inside the range of `i64`.
abbrev pub IsCalm : ℕ → ℤ → Type 0
IsCalm n x = (i64_min +ℤ pos n ≤ℤ x) × (x +ℤ pos n ≤ℤ i64_max)

tick_start-eq-floor_to : (n : ℕ) (x : ℤ) → 0 < n → IsCalm n x → tick_start n x ≡ floor_to n x
unfolding tick_start floor_to
tick_start-eq-floor_to n x h c =
    i64_sub_exact x (pos (rem_euclid x n)) (omega (int_laws, rem_euclid-lt x n h))

-- The sum of a tick's start and one of its slots does not wrap.
slot_exact :
    (n k : ℕ) (x : ℤ) → k < n → IsCalm n x → i64_add (floor_to n x) (pos k) ≡ floor_to n x +ℤ pos k
unfolding floor_to
slot_exact n k x h c =
    i64_add_exact (x -ℤ pos (rem_euclid x n)) (pos k)
      (omega (int_laws, rem_euclid-lt x n (omega arith)))

pub record IsCounting (s : Stamper) : Type 0 where
  pub counters : (t : ℤ) → pos 0 ≤ℤ slot s t

nonneg_pos : (q : ℤ) → pos 0 ≤ℤ q → (k : ℕ) × (q ≡ pos k)
nonneg_pos (pos k) h = (k, refl)
nonneg_pos (ℤ.negsuc k) h = absurd (omega arith)

-- What a stamp is: the tick's start and its next slot, which is below the tick's width.
abbrev IsSlot : Stamper → ℤ → ℤ → Type 0
IsSlot s x z =
    (k : ℕ) × (k < s.tick_ns)
    × (slot s (floor_to s.tick_ns x) ≡ pos k)
    × (z ≡ floor_to s.tick_ns x +ℤ pos k)

stamp-IsSlot :
    (s : Stamper) (x z : ℤ)
    → 1 < s.tick_ns
    → IsCounting s
    → IsCalm s.tick_ns x
    → (stamp s x).0 ≡ ok z
    → IsSlot s x z
stamp-IsSlot s x z coarse c calm e =
    let n = s.tick_ns in
    let tick_eq : tick_start n x ≡ floor_to n x = tick_start-eq-floor_to n x (omega arith) calm in
    let (k, is_k) = nonneg_pos (slot s (floor_to n x)) (c.counters (floor_to n x)) in
    let given : (if leb_ℤ (pos n) (pos k)
          then err (exhausted n x)
          else ok (i64_add (floor_to n x) (pos k)))
        ≡ ok z =
      rw (stamp-slot s x coarse, tick_eq, is_k) at e in
    let below : k < n = ground arith in
    let value : z ≡ i64_add (floor_to n x) (pos k) = ground arith in
    (k, below, is_k, value ∙ slot_exact n k x below calm)

-- A stamp already given: it lies below the next slot of its own tick.
abbrev IsUsed : Stamper → ℤ → Type 0
IsUsed s z = z <ℤ floor_to s.tick_ns z +ℤ slot s (floor_to s.tick_ns z)

module _ (s : Stamper) (x : ℤ) (coarse : 1 < s.tick_ns) (calm : IsCalm s.tick_ns x) where
  slot_grows : (t : ℤ) → length s.order < window → IsCounting s → slot s t ≤ℤ slot (stamp s x).1 t
  slot_grows t room c =
      rw (slot-stamp s x coarse t room) (ground (arith, +ℤ_parts (slot s t) (pos 1)))

  stamp-IsCounting : length s.order < window → IsCounting s → IsCounting (stamp s x).1
  stamp-IsCounting room c = record {
    counters = λ t. omega (arith, c.counters t, slot_grows t room c);
  }

  stamp-IsUsed :
      (z : ℤ) → length s.order < window → IsCounting s → IsUsed s z → IsUsed (stamp s x).1 z
  stamp-IsUsed z room c u =
      rw (tick_ns-stamp s x coarse) (omega (int_laws, slot_grows (floor_to s.tick_ns z) room c))

  -- The stamp just given is used from then on.
  stamp-uses :
      (z : ℤ)
      → length s.order < window
      → IsCounting s
      → (stamp s x).0 ≡ ok z
      → IsUsed (stamp s x).1 z
  stamp-uses z room c e =
      let (k, below, is_k, is_z) = stamp-IsSlot s x z coarse c calm e in
      let own : floor_to s.tick_ns z ≡ floor_to s.tick_ns x =
        rw is_z (floor_to-slot s.tick_ns x k below) in
      let next : slot (stamp s x).1 (floor_to s.tick_ns x) ≡ pos k +ℤ pos 1 =
        slot-stamp s x coarse (floor_to s.tick_ns x) room
        ∙ rw (tick_start-eq-floor_to s.tick_ns x (omega arith) calm, is_k)
            (ground (arith, eq_ℤ_iff (floor_to s.tick_ns x) (floor_to s.tick_ns x))) in
      rw (tick_ns-stamp s x coarse, own, next, is_z) (omega int_laws)

  -- It differs from every stamp used before.
  used_ne : (y z : ℤ) → IsCounting s → IsUsed s y → (stamp s x).0 ≡ ok z → y ≢ z
  used_ne y z c u e same =
      let (k, below, is_k, is_z) = stamp-IsSlot s x z coarse c calm e in
      let own : floor_to s.tick_ns y ≡ floor_to s.tick_ns x =
        rw (same, is_z) (floor_to-slot s.tick_ns x k below) in
      let low : y <ℤ floor_to s.tick_ns x +ℤ pos k = rw (own, is_k) at u in
      absurd (omega (arith, ap pos_part (same ∙ is_z), ap neg_part (same ∙ is_z)))

Stamped-cases : (r : Stamped) → ((z : ℤ) × (r ≡ ok z)) ⊎ ((e : StampError) × (r ≡ err e))
Stamped-cases (ok z) = inl (z, refl)
Stamped-cases (err e) = inr (e, refl)

module _ (s : Stamper) (x : ℤ) (xs : List ℤ) where
  stamps-ok : (z : ℤ) → (stamp s x).0 ≡ ok z → stamps s (x ∷ xs) ≡ z ∷ stamps (stamp s x).1 xs
  unfolding stamps
  stamps-ok z e = ground arith

  stamps-err :
      (e : StampError) → (stamp s x).0 ≡ err e → stamps s (x ∷ xs) ≡ stamps (stamp s x).1 xs
  unfolding stamps
  stamps-err z e = ground arith

length_order-after :
    (s : Stamper) (xs : List ℤ)
    → 1 < s.tick_ns
    → length s.order ≤ window
    → length s.order ≤ length (after s xs).order
unfolding after
length_order-after s [] coarse h = omega arith
length_order-after s (x ∷ xs) coarse h =
    let rest =
      length_order-after (stamp s x).1 xs (rw (tick_ns-stamp s x coarse) coarse)
        (length_order-le s x coarse h) in
    omega (arith, rest, length_order-stamp s x coarse h)

-- What a run needs: source timestamps inside the range, and a window that never fills.
abbrev HasRoom : Stamper → List ℤ → Type 0
HasRoom s xs =
    All (IsCalm s.tick_ns) xs
    × (1 < s.tick_ns)
    × (length (after s xs).order < window)
    × (length s.order ≤ window)

room_now : (s : Stamper) (xs : List ℤ) → HasRoom s xs → length s.order < window
room_now s xs (calm, coarse, room, short) = omega (arith, length_order-after s xs coarse short)

room_later : (s : Stamper) (x : ℤ) (xs : List ℤ) → HasRoom s (x ∷ xs) → HasRoom (stamp s x).1 xs
unfolding after
room_later s x xs (calm, coarse, room, short) =
    rw (tick_ns-stamp s x coarse) (calm.1, coarse, room, length_order-le s x coarse short)

stamps-ne :
    (s : Stamper) (xs : List ℤ) (z : ℤ)
    → HasRoom s xs
    → IsCounting s
    → IsUsed s z
    → All (λ y. z ≢ y) (stamps s xs)
stamps-ne s [] z r c u = unfold stamps in tt
stamps-ne s (x ∷ xs) z r c u =
    let room = room_now s (x ∷ xs) r in
    let rest =
      stamps-ne (stamp s x).1 xs z (room_later s x xs r) (stamp-IsCounting s x r.1 r.0.0 room c)
        (stamp-IsUsed s x r.1 r.0.0 z room c u) in
    elim (Stamped-cases (stamp s x).0) [
      | inl (y, e) ↦ rw (stamps-ok s x xs y e) (used_ne s x r.1 r.0.0 z y c u e, rest)
      | inr (y, e) ↦ rw (stamps-err s x xs y e) rest
    ]

stamps-Distinct : (s : Stamper) (xs : List ℤ) → HasRoom s xs → IsCounting s → Distinct (stamps s xs)
stamps-Distinct s [] r c = unfold stamps in tt
stamps-Distinct s (x ∷ xs) r c =
    let room = room_now s (x ∷ xs) r in
    let later = room_later s x xs r in
    let c' = stamp-IsCounting s x r.1 r.0.0 room c in
    let rest = stamps-Distinct (stamp s x).1 xs later c' in
    elim (Stamped-cases (stamp s x).0) [
      | inl (y, e) ↦
          rw (stamps-ok s x xs y e)
            (stamps-ne (stamp s x).1 xs y later c' (stamp-uses s x r.1 r.0.0 y room c e), rest)
      | inr (y, e) ↦ rw (stamps-err s x xs y e) rest
    ]

new-IsCounting : (r : Resolution) → IsCounting (new r)
unfolding new lookup
new-IsCounting r = record { counters = λ t. omega arith }

-- From a new stamper of a resolution coarser than nanoseconds, for source timestamps at least a
-- tick inside the range of `i64`: while the stream has shown fewer different ticks than the window
-- holds, the timestamps that it was given are pairwise different.
pub stamps-new-Distinct :
    (r : Resolution) (xs : List ℤ)
    → 1 < tick_of r
    → All (IsCalm (tick_of r)) xs
    → length (after (new r) xs).order < window
    → Distinct (stamps (new r) xs)
unfolding new
stamps-new-Distinct r xs coarse calm room =
    stamps-Distinct (new r) xs (calm, coarse, room, omega arith) (new-IsCounting r)
