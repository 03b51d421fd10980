-- ===== src/Prelude/Decimal.antt =====
-- Decimal text: what `to_string` prints for an unsigned number, and `parse::<u64>`.
use Prim.Native.Nat.{ℕ, zero, suc, ◌+◌, ◌-◌, ◌*◌, ◌/◌, ◌%◌, ◌^◌, ◌≤◌, ◌<◌}
use mathlib.Core.Bool.{◌&&◌}
use mathlib.Core.Option.{Option, none, some}
use mathlib.Core.List.{[], ◌∷◌}
use mathlib.Core.Path.{◌≡◌, refl, sym, ap, ◌∙◌, subst}
use native.Mathlib.Omega.{arith}
use mathlib.Core.Logic.{inl, inr}
use tributary.Prelude.Lists.{All}
use tributary.Prelude.Tests.{Bool-cases, Text, ltb, leb, ◌==◌, if◌then◌else◌}

-- The digits of a number before `rest`; a number has fewer digits than its successor's fuel.
digits_before : ℕ → ℕ → Text → Text
digits_before zero n rest = rest
digits_before (suc fuel) n rest =
    let more = digits_before fuel (n / 10) ((b'0' + n % 10) ∷ rest) in
    if ltb n 10 then (b'0' + n) ∷ rest else more

unfoldable pub decimal : ℕ → Text
unfolding digits_before
decimal n = digits_before (suc n) n []

parse_digits : ℕ → Text → Option ℕ
parse_digits acc [] = if ltb acc (2 ^ 64) then some acc else none
parse_digits acc (c ∷ rest) =
    let more = parse_digits (acc * 10 + (c - b'0')) rest in
    if leb b'0' c && leb c b'9' then more else none

after_sign : Text → Text
after_sign [] = []
after_sign (c ∷ rest) = if c == b'+' then rest else c ∷ rest

parse_unsigned : Text → Option ℕ
parse_unsigned [] = none
parse_unsigned (c ∷ rest) = parse_digits 0 (c ∷ rest)

-- `str::parse::<u64>`: an optional plus sign, then digits, within 64 bits.
unfoldable pub parse_u64 : Text → Option ℕ
unfolding parse_digits after_sign parse_unsigned
parse_u64 s = parse_unsigned (after_sign s)

-- `u64` addition as the release build does it, and `AtomicU64::fetch_add`.
unfoldable pub u64_add : ℕ → ℕ → ℕ
u64_add a b = (a + b) % 2 ^ 64

-- A byte that is no control character.
abbrev pub IsPrintable : ℕ → Type 0
IsPrintable c = 0x20 ≤ c

digits_before-IsPrintable :
    (fuel n : ℕ) (rest : Text) → All IsPrintable rest → All IsPrintable (digits_before fuel n rest)
unfolding digits_before
digits_before-IsPrintable zero n rest h = h
digits_before-IsPrintable (suc fuel) n rest h = elim (Bool-cases (ltb n 10)) [
  | inl last ↦ rw last (omega arith, h)
  | inr more ↦
      rw more (digits_before-IsPrintable fuel (n / 10) ((b'0' + n % 10) ∷ rest) (omega arith, h))
]

pub decimal-IsPrintable : (n : ℕ) → All IsPrintable (decimal n)
unfolding decimal
decimal-IsPrintable n = digits_before-IsPrintable (suc n) n [] tt

-- A byte that is a decimal digit.
abbrev IsDigit : ℕ → Type 0
IsDigit c = (b'0' ≤ c) × (c ≤ b'9')

digits_before-IsDigit :
    (fuel n : ℕ) (rest : Text) → All IsDigit rest → All IsDigit (digits_before fuel n rest)
unfolding digits_before
digits_before-IsDigit zero n rest h = h
digits_before-IsDigit (suc fuel) n rest h = elim (Bool-cases (ltb n 10)) [
  | inl last ↦ rw last (ground arith, h)
  | inr more ↦
      rw more (digits_before-IsDigit fuel (n / 10) ((b'0' + n % 10) ∷ rest) (omega arith, h))
]

decimal-IsDigit : (n : ℕ) → All IsDigit (decimal n)
unfolding decimal
decimal-IsDigit n = digits_before-IsDigit (suc n) n [] tt

parse_digit :
    (acc c : ℕ) (rest : Text)
    → IsDigit c
    → parse_digits acc (c ∷ rest) ≡ parse_digits (acc * 10 + (c - b'0')) rest
unfolding parse_digits
parse_digit acc c rest h = ground arith

parse_digits-digits_before :
    (fuel n : ℕ) (rest : Text)
    → n < fuel
    → parse_digits 0 (digits_before fuel n rest) ≡ parse_digits n rest
unfolding digits_before
parse_digits-digits_before zero n rest h = absurd (omega arith)
parse_digits-digits_before (suc fuel) n rest h = elim (Bool-cases (ltb n 10)) [
  | inl last ↦
      rw last
        (parse_digit 0 (b'0' + n) rest (ground arith) ∙ ap (λ k. parse_digits k rest) (omega arith))
  | inr more ↦ rw more (
      parse_digits-digits_before fuel (n / 10) ((b'0' + n % 10) ∷ rest) (ground arith)
      ∙ parse_digit (n / 10) (b'0' + n % 10) rest (omega arith)
      ∙ ap (λ k. parse_digits k rest) (omega arith))
]

-- Zeros before a number.
abbrev pub zeros : ℕ → Text → Text
zeros zero s = s
zeros (suc n) s = b'0' ∷ zeros n s

parse_digits-zeros : (k : ℕ) (s : Text) → parse_digits 0 (zeros k s) ≡ parse_digits 0 s
parse_digits-zeros zero s = refl
parse_digits-zeros (suc k) s = parse_digit 0 b'0' (zeros k s) (omega arith) ∙ parse_digits-zeros k s

zeros-IsDigit : (k : ℕ) (s : Text) → All IsDigit s → All IsDigit (zeros k s)
zeros-IsDigit zero s h = h
zeros-IsDigit (suc k) s h = (omega arith, zeros-IsDigit k s h)

parse_u64_digits : (c : ℕ) (s : Text) → IsDigit c → parse_u64 (c ∷ s) ≡ parse_digits 0 (c ∷ s)
unfolding parse_u64
parse_u64_digits c s h = ground arith

digits_before-cons :
    (fuel n : ℕ) (c : ℕ) (rest : Text)
    → (d : ℕ) × (s : Text) × (digits_before fuel n (c ∷ rest) ≡ d ∷ s)
unfolding digits_before
digits_before-cons zero n c rest = (c, rest, refl)
digits_before-cons (suc fuel) n c rest = elim (Bool-cases (ltb n 10)) [
  | inl last ↦ (b'0' + n, c ∷ rest, rw last)
  | inr more ↦ rw more (digits_before-cons fuel (n / 10) (b'0' + n % 10) (c ∷ rest))
]

decimal-cons : (n : ℕ) → (d : ℕ) × (s : Text) × (decimal n ≡ d ∷ s)
unfolding decimal digits_before
decimal-cons n = elim (Bool-cases (ltb n 10)) [
  | inl last ↦ (b'0' + n, [], rw last)
  | inr more ↦ rw more (digits_before-cons n (n / 10) (b'0' + n % 10) [])
]

zeros-cons : (k d : ℕ) (s : Text) → (c : ℕ) × (t : Text) × (zeros k (d ∷ s) ≡ c ∷ t)
zeros-cons zero d s = (d, s, refl)
zeros-cons (suc k) d s = (b'0', zeros k (d ∷ s), refl)

-- A printed number within 64 bits, with any zeros before it, parses as itself.
pub parse_u64-decimal : (k n : ℕ) → n < 2 ^ 64 → parse_u64 (zeros k (decimal n)) ≡ some n
parse_u64-decimal k n h =
    let (d, s, e) = decimal-cons n in
    let (c, t, e') = zeros-cons k d s in
    let whole : zeros k (decimal n) ≡ c ∷ t = ap (zeros k) e ∙ e' in
    let digits : All IsDigit (c ∷ t) =
      subst (All IsDigit) whole (zeros-IsDigit k (decimal n) (decimal-IsDigit n)) in
    ap parse_u64 whole
    ∙ parse_u64_digits c t digits.0
    ∙ ap (parse_digits 0) (sym whole)
    ∙ parse_digits-zeros k (decimal n)
    ∙ unfold decimal in
      parse_digits-digits_before (suc n) n [] (omega arith) ∙ unfold parse_digits in ground arith
