-- ===== src/Glob.antt =====
-- crates/tributary/src/glob.rs: a path whose last segment is a pattern. Paths and names are their bytes,
-- and the entries of a directory are a list of names, none if it cannot be read. The loop's positions in
-- the pattern and in the name are what stands from there on.
pub mod Match
pub mod Matched
mod Examples
use tributary.Prelude.{
  ℕ, zero, suc, ◌+◌, ◌*◌, Bool, true, false, ◌&&◌, ◌||◌, List, [], ◌∷◌, ◌++◌, Option, none, some,
  Text, codes, ◌==◌, if◌then◌else◌, length, drop, map, strip_suffix,
}
use tributary.Prelude.Sort.{sort_by}
use tributary.Queue.{name_le}

abbrev pub is_separator : ℕ → Bool
is_separator c = (c == b'/') || (c == b'\\')

-- What stands before the last separator, if there is one, and what behind it.
unfoldable pub split_last : Text → Option Text × Text
split_last [] = (none, [])
split_last (c ∷ s) =
    let (dir, name) = split_last s in
    elim dir [
      | some d ↦ (some (c ∷ d), name)
      | none ↦ if is_separator c then (some [], name) else (none, c ∷ name)
    ]

unfoldable pub has_wildcard : Text → Bool
has_wildcard [] = false
has_wildcard (c ∷ s) = (c == b'*') || (c == b'?') || has_wildcard s

unfoldable pub is_glob : Text → Bool
unfolding split_last has_wildcard
is_glob path = has_wildcard (split_last path).1

abbrev or_here : Option Text → Text
or_here none = codes "."
or_here (some dir) = dir

unfoldable pub split : Text → Text × Text
unfolding split_last
split pattern = let (dir, name) = split_last pattern in (or_here dir, name)

-- `pat[p] == b'?' || pat[p] == s[c]`.
unfoldable pub same : ℕ → ℕ → Bool
same x c = (x == b'?') || (x == c)

-- What the last star left: the pattern behind it, and the name from where its run ends.
abbrev pub Star : Type 0
Star = Option (Text × Text)

unfoldable pub only_stars : Text → Bool
only_stars [] = true
only_stars (x ∷ p) = (x == b'*') && only_stars p

-- The run of the last star is made longer by one.
abbrev pub retry : Star → (Text → Text → Star → Option Bool) → Option Bool
retry none next = some false
retry (some (p, mark)) next = next p (drop 1 mark) (some (p, drop 1 mark))

-- The loop, on fuel: none if it runs out.
unfoldable pub scan : ℕ → Text → Text → Star → Option Bool
unfolding only_stars same
scan zero p s star = none
scan (suc n) p [] star = some (only_stars p)
scan (suc n) [] (c ∷ s) star = retry star (scan n)
scan (suc n) (x ∷ p) (c ∷ s) star = elim (same x c) [
  | true ↦ scan n p s star
  | false ↦ elim (x == b'*') [
    | true ↦ scan n p (c ∷ s) (some (p, c ∷ s))
    | false ↦ retry star (scan n)
  ]
]

unfoldable pub wildcard : Text → Text → Option Bool
unfolding scan
wildcard pat s = scan (suc ((length s + 1) * (length pat + 1))) pat s none

abbrev or_false : Option Bool → Bool
or_false none = false
or_false (some b) = b

unfoldable pub kept : Text → List Text → List Text
unfolding wildcard
kept pat [] = []
kept pat (name ∷ names) =
    let rest = kept pat names in if or_false (wildcard pat name) then name ∷ rest else rest

abbrev join_path : Text → Text → Text
join_path dir name = dir ++ b'/' ∷ name

-- `read_dir` gives the names of a directory.
unfoldable pub matches : (Text → Option (List Text)) → Text → List Text
unfolding split kept name_le
matches read_dir pattern =
    let (dir, pat) = split pattern in
    elim (read_dir dir) [
      | none ↦ []
      | some names ↦ map (join_path dir) (sort_by name_le (kept pat names))
    ]

-- The stream of a file with this name.
unfoldable pub stream_id : Text → Text → Text
unfolding strip_suffix
stream_id source_name file =
    source_name ++ b'.' ∷ elim (strip_suffix (codes ".log") file) [ none ↦ file | some stem ↦ stem ]
