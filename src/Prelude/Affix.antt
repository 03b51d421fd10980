-- ===== src/Prelude/Affix.antt =====
-- Prefixes and suffixes of strings, and the splits at a byte.
use mathlib.Core.Path.{◌≡◌, refl}
use mathlib.Core.Option.{Option, none, some}
use mathlib.Core.List.{[], ◌∷◌, ◌++◌, reverse, reverse-append, reverse-reverse}
use native.Mathlib.Omega.{arith}
use tributary.Prelude.Tests.{Text, ◌==◌, if◌then◌else◌}

unfoldable pub strip_prefix : Text → Text → Option Text
strip_prefix [] s = some s
strip_prefix (p ∷ ps) [] = none
strip_prefix (p ∷ ps) (c ∷ s) = let rest = strip_prefix ps s in if p == c then rest else none

abbrev reversed : Option Text → Option Text
reversed none = none
reversed (some s) = some (reverse s)

-- `str::strip_suffix`.
unfoldable pub strip_suffix : Text → Text → Option Text
unfolding strip_prefix
strip_suffix suffix s = reversed (strip_prefix (reverse suffix) (reverse s))

strip_prefix-append : (p s : Text) → strip_prefix p (p ++ s) ≡ some s
unfolding strip_prefix
strip_prefix-append [] s = refl
strip_prefix-append (c ∷ p) s = ground (arith, strip_prefix-append p s)

pub strip_suffix-append : (suffix s : Text) → strip_suffix suffix (s ++ suffix) ≡ some s
unfolding strip_suffix
strip_suffix-append suffix s =
    rw
      (reverse-append s suffix, strip_prefix-append (reverse suffix) (reverse s), reverse-reverse s)

-- A suffix that is another one's is decided by the two suffixes alone, if the first is no longer.
pub strip_suffix-other :
    (suffix other s : Text)
    → ((t : Text) → strip_prefix (reverse suffix) (reverse other ++ t) ≡ none)
    → strip_suffix suffix (s ++ other) ≡ none
unfolding strip_suffix
strip_suffix-other suffix other s h = rw (reverse-append s other, h (reverse s))
