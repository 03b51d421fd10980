-- ===== src/Prelude/Int.antt =====
-- Signed integers over the native numbers, and `i64` as the integers that it stands for: the range
-- and the wrap-around are written out.
use tributary.Prelude.Tests.{ltb, leb, ◌==◌, if◌then◌else◌, Eq}
use Prim.Native.Nat.{ℕ, suc, ◌+◌, ◌-◌, ◌*◌, ◌/◌, ◌%◌, ◌^◌, ◌≤◌, ◌<◌}
use mathlib.Core.Path.{◌≡◌}
use mathlib.Core.Logic.{◌↔◌}
use mathlib.Core.Bool.{Bool, true}
use native.Mathlib.Omega.{arith}
use native.Mathlib.Nat.{div-add-mod, mod-lt}

-- `negsuc n` is -(n + 1).
pub data ℤ : Type 0 where
  pos : ℕ → ℤ
  negsuc : ℕ → ℤ

abbrev pub pos_part : ℤ → ℕ
pos_part (pos n) = n
pos_part (negsuc n) = 0

abbrev pub neg_part : ℤ → ℕ
neg_part (pos n) = 0
neg_part (negsuc n) = suc n

-- a - b, as an integer.
abbrev sub_ℕ : ℕ → ℕ → ℤ
sub_ℕ a b = if leb b a then pos (a - b) else negsuc (b - a - 1)

infixl 65 ◌+ℤ◌ ◌-ℤ◌
infix 50 ◌≤ℤ◌ ◌<ℤ◌
unfoldable pub ◌+ℤ◌ : ℤ → ℤ → ℤ
a +ℤ b = sub_ℕ (pos_part a + pos_part b) (neg_part a + neg_part b)

unfoldable pub ◌-ℤ◌ : ℤ → ℤ → ℤ
a -ℤ b = sub_ℕ (pos_part a + neg_part b) (neg_part a + pos_part b)

abbrev pub ◌≤ℤ◌ : ℤ → ℤ → Type 0
a ≤ℤ b = pos_part a + neg_part b ≤ pos_part b + neg_part a

abbrev pub ◌<ℤ◌ : ℤ → ℤ → Type 0
a <ℤ b = pos_part a + neg_part b < pos_part b + neg_part a

abbrev pub ltb_ℤ : ℤ → ℤ → Bool
ltb_ℤ a b = ltb (pos_part a + neg_part b) (pos_part b + neg_part a)

abbrev pub leb_ℤ : ℤ → ℤ → Bool
leb_ℤ a b = leb (pos_part a + neg_part b) (pos_part b + neg_part a)

abbrev pub eq_ℤ : ℤ → ℤ → Bool
eq_ℤ a b = pos_part a + neg_part b == pos_part b + neg_part a

pub eq_ℤ_iff : (a b : ℤ) → (eq_ℤ a b ≡ true) ↔ (a ≡ b)
eq_ℤ_iff a b = ground arith

instance abbrev pub int_has_eq : Eq ℤ
int_has_eq = record { beq = eq_ℤ; beq_iff = eq_ℤ_iff }

pub +ℤ_parts :
    (a b : ℤ)
    → pos_part (a +ℤ b) + neg_part a + neg_part b ≡ neg_part (a +ℤ b) + pos_part a + pos_part b
unfolding ◌+ℤ◌
+ℤ_parts a b = ground arith

pub -ℤ_parts :
    (a b : ℤ)
    → pos_part (a -ℤ b) + neg_part a + pos_part b ≡ neg_part (a -ℤ b) + pos_part a + neg_part b
unfolding ◌-ℤ◌
-ℤ_parts a b = ground arith

pub eq_of_parts : (a b : ℤ) → pos_part a + neg_part b ≡ pos_part b + neg_part a → a ≡ b
eq_of_parts a b h = ground arith

pub ruleset int_laws = (arith, +ℤ_parts, -ℤ_parts, eq_of_parts)

-- `i64::MIN` and `i64::MAX`.
abbrev pub i64_min : ℤ
i64_min = negsuc (2 ^ 63 - 1)

abbrev pub i64_max : ℤ
i64_max = pos (2 ^ 63 - 1)

abbrev pub IsI64 : ℤ → Type 0
IsI64 a = (i64_min ≤ℤ a) × (a ≤ℤ i64_max)

-- `rem_euclid` by a positive number.
unfoldable pub rem_euclid : ℤ → ℕ → ℕ
rem_euclid (pos a) n = a % n
rem_euclid (negsuc a) n = n - 1 - a % n

-- The `i64` with the same 64 bits as the low 64 bits of the integer.
unfoldable pub wrap_i64 : ℤ → ℤ
unfolding rem_euclid
wrap_i64 a =
    let u = rem_euclid a (2 ^ 64) in if ltb u (2 ^ 63) then pos u else negsuc (2 ^ 64 - 1 - u)

unfoldable pub i64_add : ℤ → ℤ → ℤ
i64_add a b = wrap_i64 (a +ℤ b)

unfoldable pub i64_sub : ℤ → ℤ → ℤ
i64_sub a b = wrap_i64 (a -ℤ b)

wrap_i64_id : (a : ℤ) → IsI64 a → wrap_i64 a ≡ a
unfolding wrap_i64 rem_euclid
wrap_i64_id a h = ground arith

-- An operation whose exact result fits does not wrap.
pub i64_add_exact : (a b : ℤ) → IsI64 (a +ℤ b) → i64_add a b ≡ a +ℤ b
unfolding i64_add
i64_add_exact a b h = wrap_i64_id (a +ℤ b) h

pub i64_sub_exact : (a b : ℤ) → IsI64 (a -ℤ b) → i64_sub a b ≡ a -ℤ b
unfolding i64_sub
i64_sub_exact a b h = wrap_i64_id (a -ℤ b) h

-- The largest multiple of `n` at or below the integer, exactly.
unfoldable pub floor_to : ℕ → ℤ → ℤ
floor_to n a = a -ℤ pos (rem_euclid a n)

pub rem_euclid-lt : (a : ℤ) (n : ℕ) → 0 < n → rem_euclid a n < n
unfolding rem_euclid
rem_euclid-lt (pos a) n h = grind arith
rem_euclid-lt (negsuc a) n h = omega arith

mod_of_multiple : (n k r : ℕ) → r < n → (n * k + r) % n ≡ r
mod_of_multiple n k r h = grind arith

floor_to-pos : (n a : ℕ) → floor_to n (pos a) ≡ pos (n * (a / n))
unfolding floor_to rem_euclid ◌-ℤ◌
floor_to-pos n a = ground (arith, div-add-mod a n)

floor_to-negsuc : (n a : ℕ) → 0 < n → floor_to n (negsuc a) ≡ negsuc (n * (a / n) + n - 1)
unfolding floor_to rem_euclid ◌-ℤ◌
floor_to-negsuc n a h = ground (arith, div-add-mod a n, mod-lt a h)

rem_euclid-negsuc : (n k s : ℕ) → s < n → rem_euclid (negsuc (n * k + (n - 1 - s))) n ≡ s
unfolding rem_euclid
rem_euclid-negsuc n k s h = omega (arith, mod_of_multiple n k (n - 1 - s) (omega arith))

-- A slot of a tick has that tick's own floor.
pub floor_to-slot :
    (n : ℕ) (a : ℤ) (s : ℕ) → s < n → floor_to n (floor_to n a +ℤ pos s) ≡ floor_to n a
floor_to-slot n (pos a) s h =
    rw (floor_to-pos n a)
      (unfold floor_to ◌-ℤ◌ ◌+ℤ◌ rem_euclid in ground (arith, mod_of_multiple n (a / n) s h))
floor_to-slot n (negsuc a) s h =
    let e : negsuc (n * (a / n) + n - 1) +ℤ pos s ≡ negsuc (n * (a / n) + (n - 1 - s)) =
      unfold ◌+ℤ◌ in ground arith in
    rw (floor_to-negsuc n a (omega arith), e)
      (unfold floor_to ◌-ℤ◌ in ground (arith, rem_euclid-negsuc n (a / n) s h))
