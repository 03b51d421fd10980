-- ===== src/Logfile/Limits.antt =====
-- `parse_size` and `parse_duration` of crates/tributary/src/logfile.rs: limits as they are written.
use tributary.Prelude.{
  ℕ, ◌*◌, ◌%◌, ◌^◌, List, [], ◌∷◌, Option, none, some, Text, codes, text_has_eq, ltb, if◌then◌else◌,
  strip_suffix, parse_u64,
}
use tributary.Map.Trim.{trim}

-- The number and what it is multiplied by.
unfoldable pub parse_units : List (Text × ℕ) → Text → Text × ℕ
unfolding strip_suffix
parse_units [] s = (s, 1)
parse_units ((unit, mult) ∷ units) s =
    let rest = parse_units units s in
    elim (strip_suffix unit s) [ none ↦ rest | some v ↦ (v, mult) ]

-- `.filter(|n| *n > 0).map(|n| n * mult)`, which wraps.
abbrev multiplied : ℕ → Option ℕ → Option ℕ
multiplied mult none = none
multiplied mult (some n) = if ltb 0 n then some (n * mult % 2 ^ 64) else none

abbrev size_units : List (Text × ℕ)
size_units =
    (codes "GiB", 1024 ^ 3)
    ∷ (codes "MiB", 1024 ^ 2)
    ∷ (codes "KiB", 1024)
    ∷ (codes "GB", 1000000000)
    ∷ (codes "MB", 1000000)
    ∷ (codes "KB", 1000)
    ∷ (codes "B", 1)
    ∷ []

unfoldable pub parse_size : Text → Option ℕ
unfolding parse_units trim parse_u64
parse_size s =
    let (num, mult) = parse_units size_units (trim s) in multiplied mult (parse_u64 (trim num))

abbrev duration_units : List (Text × ℕ)
duration_units = (codes "d", 86400) ∷ (codes "h", 3600) ∷ (codes "m", 60) ∷ (codes "s", 1) ∷ []

unfoldable pub parse_duration : Text → Option ℕ
unfolding parse_units trim parse_u64
parse_duration s = elim (trim s) [
  | [] ↦ none
  | c ∷ cs ↦
      let (num, mult) = parse_units duration_units (c ∷ cs) in
      multiplied mult (parse_u64 (trim num))
]
