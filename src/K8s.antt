-- ===== src/K8s.antt =====
-- crates/tributary/src/k8s.rs: pod, namespace and container out of the name of a container's log.
pub mod Path
mod Examples
use tributary.Prelude.{
  ℕ, ◌≤◌, Bool, true, false, not, ◌&&◌, ◌||◌, List, [], ◌∷◌, ◌++◌, Option, none, some, Text, codes,
  leb, ◌==◌, if◌then◌else◌, length, strip_suffix,
}

pub record CriMeta : Type 0 where
  pub pod : Text
  pub namespace : Text
  pub container : Text

abbrev pub is_ascii_hexdigit : ℕ → Bool
is_ascii_hexdigit b =
    (leb b'0' b && leb b b'9') || (leb b'a' b && leb b b'f') || (leb b'A' b && leb b b'F')

unfoldable pub all_hex : Text → Bool
all_hex [] = true
all_hex (b ∷ s) = is_ascii_hexdigit b && all_hex s

unfoldable pub looks_like_container_id : Text → Bool
unfolding all_hex
looks_like_container_id s = (length s == 64) && all_hex s

abbrev pub is_separator : ℕ → Bool
is_separator c = (c == b'/') || (c == 92)

unfoldable pub contains : (ℕ → Bool) → Text → Bool
contains test [] = false
contains test (c ∷ s) = test c || contains test s

-- `rsplit(['/', '\\']).next()`: what follows the last separator.
unfoldable pub last_segment : Text → Text
unfolding contains
last_segment [] = []
last_segment (c ∷ s) =
    let rest = last_segment s in
    if contains is_separator s then rest else if is_separator c then s else c ∷ s

-- One cut of `splitn` at an underscore.
unfoldable pub split_underscore : Text → Text × Option Text
split_underscore [] = ([], none)
split_underscore (c ∷ s) =
    let (field, rest) = split_underscore s in if c == b'_' then ([], some s) else (c ∷ field, rest)

-- `rsplit_once('-')`.
unfoldable pub rsplit_hyphen : Text → Option (Text × Text)
rsplit_hyphen [] = none
rsplit_hyphen (c ∷ s) = elim (rsplit_hyphen s) [
  | some (before, behind) ↦ some (c ∷ before, behind)
  | none ↦ if c == b'-' then some ([], s) else none
]

abbrev pub is_empty : Text → Bool
is_empty [] = true
is_empty (c ∷ s) = false

-- The checks of the container and of the id.
unfoldable pub meta_of : Text → Text → Option (Text × Text) → Option CriMeta
unfolding looks_like_container_id
meta_of pod namespace none = none
meta_of pod namespace (some (container, id)) =
    if is_empty container || not (looks_like_container_id id)
    then none
    else some (record { pod = pod; namespace = namespace; container = container })

-- The checks of the pod and of the namespace.
unfoldable pub parse_rest : Text → Text → Text → Option CriMeta
unfolding meta_of rsplit_hyphen contains
parse_rest pod namespace container_and_id =
    if is_empty pod || (is_empty namespace || contains (λ c. c == b'_') container_and_id)
    then none
    else meta_of pod namespace (rsplit_hyphen container_and_id)

unfoldable pub parse_namespace : Text → Text × Option Text → Option CriMeta
unfolding parse_rest
parse_namespace pod (namespace, none) = none
parse_namespace pod (namespace, some rest) = parse_rest pod namespace rest

unfoldable pub parse_pod : Text × Option Text → Option CriMeta
unfolding parse_namespace split_underscore
parse_pod (pod, none) = none
parse_pod (pod, some rest) = parse_namespace pod (split_underscore rest)

unfoldable pub parse_stem : Option Text → Option CriMeta
unfolding parse_pod split_underscore
parse_stem none = none
parse_stem (some stem) = parse_pod (split_underscore stem)

unfoldable pub parse_cri_path : Text → Option CriMeta
unfolding parse_stem strip_suffix last_segment
parse_cri_path path = parse_stem (strip_suffix (codes ".log") (last_segment path))

abbrev pub label_of : CriMeta → Text
label_of m = m.pod ++ b'_' ∷ (m.namespace ++ b'_' ∷ m.container)

abbrev pub labelled : Option CriMeta → Option Text
labelled none = none
labelled (some m) = some (label_of m)

unfoldable pub stream_label : Text → Option Text
unfolding parse_cri_path
stream_label path = labelled (parse_cri_path path)
