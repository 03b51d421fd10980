-- ===== src/K8s/Path.antt =====
-- crates/tributary/src/k8s.rs: paths put together from their parts, and what is read from them.
use tributary.Prelude.{
  ◌≡◌, ◌≢◌, refl, ap, ◌∙◌, true, false, [], ◌∷◌, ◌++◌, none, some, Text, codes, arith, All,
  All-append, ◌==◌, length, strip_suffix, strip_suffix-append,
}
use tributary.K8s.{
  CriMeta, all_hex, looks_like_container_id, is_separator, contains, last_segment, split_underscore,
  rsplit_hyphen, is_empty, meta_of, parse_rest, parse_namespace, parse_pod, parse_stem,
  parse_cri_path, stream_label, labelled,
}

-- A name holds no separator and no underscore.
abbrev pub IsName : Text → Type 0
IsName s = All (λ c. (is_separator c ≡ false) × (c ≢ b'_')) s

abbrev IsSegment : Text → Type 0
IsSegment s = All (λ c. is_separator c ≡ false) s

no_separator : (s : Text) → IsSegment s → contains is_separator s ≡ false
unfolding contains
no_separator [] h = refl
no_separator (c ∷ s) h = ground (arith, h.0, no_separator s h.1)

has_separator : (dir s : Text) → contains is_separator (dir ++ b'/' ∷ s) ≡ true
unfolding contains
has_separator [] s = refl
has_separator (c ∷ dir) s = ground (arith, has_separator dir s)

last_segment-append : (dir s : Text) → IsSegment s → last_segment (dir ++ b'/' ∷ s) ≡ s
unfolding last_segment
last_segment-append [] s h = ground (arith, no_separator s h)
last_segment-append (c ∷ dir) s h = ground (arith, has_separator dir s, last_segment-append dir s h)

split_underscore-name :
    (s rest : Text) → IsName s → split_underscore (s ++ b'_' ∷ rest) ≡ (s, some rest)
unfolding split_underscore
split_underscore-name [] rest h = refl
split_underscore-name (c ∷ s) rest h = rw (split_underscore-name s rest h.1) (ground (arith, h.0.1))

hex_no_hyphen : (id : Text) → all_hex id ≡ true → rsplit_hyphen id ≡ none
unfolding all_hex rsplit_hyphen
hex_no_hyphen [] h = refl
hex_no_hyphen (c ∷ id) h = ground (arith, h, hex_no_hyphen id)

rsplit_hyphen-append :
    (s id : Text) → all_hex id ≡ true → rsplit_hyphen (s ++ b'-' ∷ id) ≡ some (s, id)
unfolding rsplit_hyphen
rsplit_hyphen-append [] id h = rw (hex_no_hyphen id h) refl
rsplit_hyphen-append (c ∷ s) id h = rw (rsplit_hyphen-append s id h) refl

IsName-IsSegment : (s : Text) → IsName s → IsSegment s
IsName-IsSegment [] h = tt
IsName-IsSegment (c ∷ s) h = (h.0.0, IsName-IsSegment s h.1)

hex-IsName : (id : Text) → all_hex id ≡ true → IsName id
unfolding all_hex
hex-IsName [] h = tt
hex-IsName (c ∷ id) h =
    ((ground (arith, h), λ e. ground (arith, h, e)), hex-IsName id (ground (arith, h)))

underscore_free : (s : Text) → IsName s → contains (λ c. c == b'_') s ≡ false
unfolding contains
underscore_free [] h = refl
underscore_free (c ∷ s) h = ground (arith, h.0.1, underscore_free s h.1)

module _ (pod namespace container id : Text) (pods : IsName pod) (namespaces : IsName namespace)
    (containers : IsName container) (some_pod : pod ≢ []) (some_namespace : namespace ≢ [])
    (some_container : container ≢ []) (hex : all_hex id ≡ true) (wide : length id ≡ 64) where
  abbrev named : Text
  named = container ++ b'-' ∷ id

  abbrev stem : Text
  stem = pod ++ b'_' ∷ (namespace ++ b'_' ∷ named)

  named-IsName : IsName named
  named-IsName =
      All-append (λ c. (is_separator c ≡ false) × (c ≢ b'_')) container (b'-' ∷ id) containers
        ((refl, λ e. omega (arith, e)), hex-IsName id hex)

  stem-IsSegment : IsSegment (stem ++ codes ".log")
  stem-IsSegment =
      All-append (λ c. is_separator c ≡ false) stem (codes ".log")
        (All-append (λ c. is_separator c ≡ false) pod (b'_' ∷ (namespace ++ b'_' ∷ named))
          (IsName-IsSegment pod pods)
          (
            refl,
            All-append (λ c. is_separator c ≡ false) namespace (b'_' ∷ named)
                (IsName-IsSegment namespace namespaces) (refl, IsName-IsSegment named named-IsName),
          ))
        (refl, (refl, (refl, (refl, tt))))

  abbrev parts : CriMeta
  parts = record { pod = pod; namespace = namespace; container = container }

  not_empty : (s : Text) → s ≢ [] → is_empty s ≡ false
  not_empty [] h = absurd (h refl)
  not_empty (c ∷ s) h = refl

  meta_of-parts : meta_of pod namespace (some (container, id)) ≡ some parts
  unfolding meta_of looks_like_container_id
  meta_of-parts = ground (arith, not_empty container some_container, hex, wide)

  parse_rest-parts : parse_rest pod namespace named ≡ some parts
  unfolding parse_rest
  parse_rest-parts =
      rw
        (
          not_empty pod some_pod,
          not_empty namespace some_namespace,
          underscore_free named named-IsName,
          rsplit_hyphen-append container id hex,
        )
        meta_of-parts

  -- Pod, namespace and container, no name empty and none with a separator or an underscore, and an id
  -- of 64 hexadecimal digits: the path made of them, in whatever directory, is read back as these,
  -- with all the hyphens in the names, and its label leaves the id out.
  pub parse_cri_path-parts :
      (dir : Text)
      → (parse_cri_path (dir ++ b'/' ∷ (stem ++ codes ".log")) ≡ some parts)
        × (stream_label (dir ++ b'/' ∷ (stem ++ codes ".log"))
            ≡ some (pod ++ b'_' ∷ (namespace ++ b'_' ∷ container)))
  unfolding parse_cri_path parse_stem parse_pod parse_namespace stream_label
  parse_cri_path-parts dir = (parsed, ap labelled parsed)
    where
      parsed : parse_cri_path (dir ++ b'/' ∷ (stem ++ codes ".log")) ≡ some parts
      parsed =
          ap (λ s. parse_stem (strip_suffix (codes ".log") s))
            (last_segment-append dir (stem ++ codes ".log") stem-IsSegment)
          ∙ ap parse_stem (strip_suffix-append (codes ".log") stem)
          ∙ ap parse_pod (split_underscore-name pod (namespace ++ b'_' ∷ named) pods)
          ∙ ap (parse_namespace pod) (split_underscore-name namespace named namespaces)
          ∙ parse_rest-parts
