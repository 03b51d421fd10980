-- ===== src/Map/Trim.antt =====
-- `str::trim` and `trim_end_matches` of the standard library, on the bytes of a string, as
-- crates/tributary/src/map.rs uses them.
use tributary.Prelude.{
  ℕ, zero, suc, ◌||◌, List, [], ◌∷◌, Option, none, some, Text, ◌==◌, if◌then◌else◌, length, reverse,
  map, strip_prefix,
}

-- The characters of `char::is_whitespace`.
abbrev spaces : List Text
spaces =
    (0x09 ∷ [])
    ∷ (0x0a ∷ [])
    ∷ (0x0b ∷ [])
    ∷ (0x0c ∷ [])
    ∷ (0x0d ∷ [])
    ∷ (0x20 ∷ [])
    ∷ (0xc2 ∷ 0x85 ∷ [])
    ∷ (0xc2 ∷ 0xa0 ∷ [])
    ∷ (0xe1 ∷ 0x9a ∷ 0x80 ∷ [])
    ∷ (0xe2 ∷ 0x80 ∷ 0x80 ∷ [])
    ∷ (0xe2 ∷ 0x80 ∷ 0x81 ∷ [])
    ∷ (0xe2 ∷ 0x80 ∷ 0x82 ∷ [])
    ∷ (0xe2 ∷ 0x80 ∷ 0x83 ∷ [])
    ∷ (0xe2 ∷ 0x80 ∷ 0x84 ∷ [])
    ∷ (0xe2 ∷ 0x80 ∷ 0x85 ∷ [])
    ∷ (0xe2 ∷ 0x80 ∷ 0x86 ∷ [])
    ∷ (0xe2 ∷ 0x80 ∷ 0x87 ∷ [])
    ∷ (0xe2 ∷ 0x80 ∷ 0x88 ∷ [])
    ∷ (0xe2 ∷ 0x80 ∷ 0x89 ∷ [])
    ∷ (0xe2 ∷ 0x80 ∷ 0x8a ∷ [])
    ∷ (0xe2 ∷ 0x80 ∷ 0xa8 ∷ [])
    ∷ (0xe2 ∷ 0x80 ∷ 0xa9 ∷ [])
    ∷ (0xe2 ∷ 0x80 ∷ 0xaf ∷ [])
    ∷ (0xe2 ∷ 0x81 ∷ 0x9f ∷ [])
    ∷ (0xe3 ∷ 0x80 ∷ 0x80 ∷ [])
    ∷ []

unfoldable strip_any : List Text → Text → Option Text
unfolding strip_prefix
strip_any [] s = none
strip_any (p ∷ ps) s = elim (strip_prefix p s) [ none ↦ strip_any ps s | some rest ↦ some rest ]

-- As many turns as there are bytes are enough, since each takes one at least.
unfoldable strip_all : ℕ → List Text → Text → Text
unfolding strip_any
strip_all zero ps s = s
strip_all (suc n) ps s = elim (strip_any ps s) [ none ↦ s | some rest ↦ strip_all n ps rest ]

unfoldable pub trim : Text → Text
unfolding strip_all
trim s =
    let t = reverse (strip_all (length s) spaces s) in
    reverse (strip_all (length t) (map reverse spaces) t)

unfoldable drop_newlines : Text → Text
drop_newlines [] = []
drop_newlines (c ∷ s) =
    let rest = drop_newlines s in if c == b'\n' || c == b'\r' then rest else c ∷ s

unfoldable pub trim_newlines : Text → Text
unfolding drop_newlines
trim_newlines s = reverse (drop_newlines (reverse s))
