-- ===== src/Map/Tags.antt =====
-- The tags of a record in crates/tributary/src/map.rs.
use tributary.Prelude.{
  ◌≡◌, ◌∙◌, refl, sym, ap, Bool, true, false, ◌||◌, List, [], ◌∷◌, ◌++◌, Option, none, some, Text,
  codes, arith, text_eq, text_eq_iff, text_has_eq, if◌then◌else◌, lookup, subst,
}
use tributary.Prelude.Int.{ℤ}
use tributary.Map.{
  Json, Library, Source, Result, ok, err, put, collect, kubernetes_tags, visibility_tags, text_of,
  nonempty, promote, promoted, all_tags, fields_of, and_then, recorded, build_record,
}
use tributary.Lp.{Record, Value}
use tributary.Map.Order.{IsOrdered, collect-IsOrdered}

-- The first answer, if there is one, else the second.
abbrev pub or_first : {A : Type 0} → Option A → Option A → Option A
or_first none o = o
or_first (some a) o = some a

abbrev pub last_value : Text → List (Text × Text) → Option Text
last_value k [] = none
last_value k ((j, v) ∷ kvs) = or_first (last_value k kvs) (if text_eq j k then some v else none)

or_first_assoc : (a b c : Option Text) → or_first (or_first a b) c ≡ or_first a (or_first b c)
or_first_assoc none b c = refl
or_first_assoc (some a) b c = refl

or_first-none : (a : Option Text) → or_first a none ≡ a
or_first-none none = refl
or_first-none (some a) = refl

last_value-append :
    (k : Text) (xs ys : List (Text × Text))
    → last_value k (xs ++ ys) ≡ or_first (last_value k ys) (last_value k xs)
last_value-append k [] ys = sym (or_first-none (last_value k ys))
last_value-append k ((j, v) ∷ xs) ys =
    ap (λ o. or_first o (if text_eq j k then some v else none)) (last_value-append k xs ys)
    ∙ or_first_assoc (last_value k ys) (last_value k xs) (if text_eq j k then some v else none)

lookup-put :
    (j k v : Text) (m : List (Text × Text))
    → lookup j (put k v m) ≡ or_first (if text_eq k j then some v else none) (lookup j m)
unfolding lookup put
lookup-put j k v [] = ground arith
lookup-put j k v ((i, w) ∷ m) =
    ground (arith, text_eq_iff k i, text_eq_iff i j, text_eq_iff k j, lookup-put j k v m)

lookup-collect :
    (j : Text) (kvs m : List (Text × Text))
    → lookup j (collect m kvs) ≡ or_first (last_value j kvs) (lookup j m)
unfolding collect
lookup-collect j [] m = refl
lookup-collect j ((k, v) ∷ kvs) m =
    lookup-collect j kvs (put k v m)
    ∙ ap (or_first (last_value j kvs)) (lookup-put j k v m)
    ∙ sym (or_first_assoc (last_value j kvs) (if text_eq k j then some v else none) (lookup j m))

abbrev shown : Text → Option Text
shown [] = none
shown (c ∷ s) = some (c ∷ s)

or_first-same : (a : Option Text) → or_first a a ≡ a
or_first-same none = refl
or_first-same (some a) = refl

nonempty-value :
    (k key text : Text) (tags : List (Text × Text))
    → last_value k (nonempty key text tags)
      ≡ or_first (last_value k tags) (if text_eq key k then shown text else none)
nonempty-value k key [] tags = none_added (text_eq key k) (last_value k tags)
  where
    none_added : (b : Bool) (o : Option Text) → o ≡ or_first o (if b then none else none)
    none_added true o = sym (or_first-none o)
    none_added false o = sym (or_first-none o)
nonempty-value k key (c ∷ s) tags = refl

flat :
    (a b c d e : Option Text)
    → or_first (or_first (or_first (or_first a b) c) d) e
      ≡ or_first a (or_first b (or_first c (or_first d e)))
flat none none none d e = refl
flat none none (some c) d e = refl
flat none (some b) c d e = refl
flat (some a) b c d e = refl

abbrev tags_of : Result (Record × ℤ) → List (Text × Text)
tags_of (ok (r, ts)) = r.tags
tags_of (err e) = []

merge :
    (c e : Bool) (a b : Option Text)
    → (e ≡ true → b ≡ a)
    → or_first (if c then a else none) (if e then b else none) ≡ (if e || c then a else none)
merge true true a b h = ap (or_first a) (h refl) ∙ or_first-same a
merge true false a b h = or_first-none a
merge false true a b h = h refl
merge false false a b h = refl

module _ {Number Other : Type 0} (lib : Library Number Other) where
  -- The text of a key of the line, if there is one and it is not empty.
  abbrev shown_of : Option (Json Number Other) → Option Text
  shown_of none = none
  shown_of (some v) = shown (text_of lib v)

  abbrev pub text_at : Text → List (Text × Json Number Other) → Option Text
  text_at k parsed = shown_of (lookup k parsed)

  abbrev pub contains : Text → List Text → Bool
  contains k [] = false
  contains k (j ∷ js) = text_eq j k || contains k js

  -- Where the value of a tag comes from: the later sources win.
  abbrev pub tag_value : Source → List (Text × Json Number Other) → Text → Option Text
  tag_value src parsed k = or_first (last_value k (kubernetes_tags src)) (
      or_first (last_value k (visibility_tags src.visibility)) (
        or_first (if contains k src.tags then text_at k parsed else none) (
          or_first (last_value k src.tags_static)
            (if text_eq (codes "stream") k then some src.name else none))))

  promote-value :
      (k key : Text) (o : Option (Json Number Other)) (tags : List (Text × Text))
      → last_value k (promote lib key o tags)
        ≡ or_first (last_value k tags) (if text_eq key k then shown_of o else none)
  promote-value k key none tags = nonempty-value k key [] tags
  promote-value k key (some v) tags = nonempty-value k key (text_of lib v) tags

  promoted-value :
      (k : Text) (keys : List Text) (parsed : List (Text × Json Number Other))
      → last_value k (promoted lib keys parsed)
        ≡ (if contains k keys then text_at k parsed else none)
  unfolding promoted
  promoted-value k [] parsed = refl
  promoted-value k (key ∷ keys) parsed =
      promote-value k key (lookup key parsed) (promoted lib keys parsed)
      ∙ ap (λ o. or_first o (if text_eq key k then text_at key parsed else none))
          (promoted-value k keys parsed)
      ∙ merge (contains k keys) (text_eq key k) (text_at k parsed) (text_at key parsed)
          (λ e. ap (λ x. text_at x parsed) ((text_eq_iff key k).0 e))

  all_tags-value :
      (src : Source) (parsed : List (Text × Json Number Other)) (k : Text)
      → last_value k (all_tags lib src parsed) ≡ tag_value src parsed k
  unfolding all_tags
  all_tags-value src parsed k =
      let own = promoted lib src.tags parsed in
      let seen = visibility_tags src.visibility in
      let enriched = kubernetes_tags src in
      let named : Option Text = if text_eq (codes "stream") k then some src.name else none in
      ap (λ o. or_first o named)
        (last_value-append k src.tags_static (own ++ (seen ++ enriched))
          ∙ ap (λ o. or_first o (last_value k src.tags_static))
              (last_value-append k own (seen ++ enriched)
                ∙ ap (λ o. or_first o (last_value k own)) (last_value-append k seen enriched)))
      ∙ ap
          (λ o.
            or_first
              (or_first (or_first (or_first (last_value k enriched) (last_value k seen)) o)
                (last_value k src.tags_static))
              named)
          (promoted-value k src.tags parsed)
      ∙ flat (last_value k enriched) (last_value k seen)
          (if contains k src.tags then text_at k parsed else none) (last_value k src.tags_static)
          named

  built :
      (src : Source) (parsed : List (Text × Json Number Other)) (ts : ℤ)
      (fields : Result (List (Text × Value))) (r : Record) (ts' : ℤ)
      → and_then {B = Record × ℤ} fields (λ fields. ok (recorded lib src parsed fields, ts))
        ≡ ok (r, ts')
      → r.tags ≡ collect [] (all_tags lib src parsed)
  built src parsed ts (ok fields) r ts' e = unfold recorded in sym (ap tags_of e)
  built src parsed ts (err x) r ts' e = ground (arith, e)

  -- The tags of a record that is built stand in the order of their keys, each key once, and the value
  -- of each key is the last one of: the source's name for `stream`, the static tags, the text of the
  -- line if the key is promoted and the text is not empty, the visibility, and what the path of a
  -- container's log says.
  pub build_record-tags :
      (src : Source) (parsed : List (Text × Json Number Other)) (ts : ℤ) (r : Record) (ts' : ℤ)
      → build_record lib src parsed ts ≡ ok (r, ts')
      → IsOrdered r.tags × ((k : Text) → lookup k r.tags ≡ tag_value src parsed k)
  unfolding build_record lookup
  build_record-tags src parsed ts r ts' e =
      let tags = built src parsed ts (fields_of lib src.fields parsed) r ts' e in
      (
        subst IsOrdered (sym tags) (collect-IsOrdered (all_tags lib src parsed) [] tt),
        λ k.
            ap (lookup k) tags
            ∙ lookup-collect k (all_tags lib src parsed) []
            ∙ or_first-none (last_value k (all_tags lib src parsed))
            ∙ all_tags-value src parsed k,
      )
