-- ===== src/Map/Fields.antt =====
-- The fields of a record in crates/tributary/src/map.rs.
use tributary.Prelude.{
  ℕ, ◌≡◌, true, false, List, [], ◌∷◌, Option, none, some, Text, text_eq, text_has_eq, lookup, All,
  ◌⊎◌,
}
use tributary.Prelude.Int.{ℤ}
use tributary.Prelude.Sort.{count}
use tributary.Lp.{Record, Value}
use tributary.Map.{
  FieldType, Json, Library, Source, MapError, uncoercible_field, Result, ok, err, coerced,
}

abbrev keys : List (Text × Value) → List Text
keys [] = []
keys ((key, v) ∷ fields) = key ∷ keys fields

-- How often a key is in the list.
abbrev pub times : Text → List Text → ℕ
times key = count (text_eq key)

abbrev pub Occurs : {A : Type 0} → A → List A → Type 0
Occurs x [] = false ≡ true
Occurs x (y ∷ ys) = (x ≡ y) ⊎ Occurs x ys

module _ {Number Other : Type 0} (lib : Library Number Other)
    (parsed : List (Text × Json Number Other)) where
  -- The declarations whose key the line has.
  abbrev with_key : Option (Json Number Other) → Text → List Text → List Text
  with_key none key keys = keys
  with_key (some raw) key keys = key ∷ keys

  abbrev pub present : List (Text × FieldType) → List Text
  present [] = []
  present ((key, want) ∷ declared) = with_key (lookup key parsed) key (present declared)

  -- A field is a declared key of the line, as the declared type.
  abbrev pub IsDeclared : List (Text × FieldType) → Text × Value → Type 0
  IsDeclared declared (key, v) =
      (want : FieldType) × (raw : Json Number Other) × Occurs (key, want) declared
      × (lookup key parsed ≡ some raw)
      × (coerced lib want raw ≡ some v)

  abbrev pub IsUncoercible : List (Text × FieldType) → MapError → Type 0
  IsUncoercible declared e =
      (key : Text) × (want : FieldType) × (raw : Json Number Other) × Occurs (key, want) declared
      × (lookup key parsed ≡ some raw)
      × (coerced lib want raw ≡ none)
      × (e ≡ uncoercible_field key want)

  abbrev Coerces : List (Text × FieldType) → Result (List (Text × Value)) → Type 0
  Coerces declared (ok fields) = All (IsDeclared declared) fields × (keys fields ≡ present declared)
  Coerces declared (err e) = IsUncoercible declared e

  -- What a record that is built, or an error, says of the line.
  abbrev pub Builds : Source → ℤ → Result (Record × ℤ) → Type 0
  Builds src ts (ok (r, ts')) =
      All (IsDeclared src.fields) r.fields
      × ((key : Text) → times key (keys r.fields) ≡ times key (present src.fields))
      × (r.table ≡ src.table)
      × (ts' ≡ ts)
  Builds src ts (err e) = IsUncoercible src.fields e
