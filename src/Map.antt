-- ===== src/Map.antt =====
-- crates/tributary/src/map.rs: one line of a source as a record. JSON, RFC 3339 and the reading of
-- floats are the libraries', as arguments; a parsed object is an association list with one entry for a
-- key. Strings are their UTF-8 bytes, and a float is its 64 bits. An error carries no text but a key.
pub mod Trim
pub mod Order
pub mod Tags
pub mod Fields
mod Examples
use tributary.Prelude.{
  ℕ, zero, suc, ◌+◌, ◌-◌, ◌*◌, ◌^◌, Bool, true, false, ◌||◌, List, [], ◌∷◌, ◌++◌, Option, none,
  some, Text, codes, text_eq, text_has_eq, ltb, leb, ◌==◌, if◌then◌else◌, lookup, parse_u64,
}
use tributary.Prelude.Int.{ℤ, pos, negsuc, wrap_i64}
use tributary.Prelude.Sort.{sort_by}
use tributary.Lp.{Value, str, int, float, bool, Record}
use tributary.K8s.{CriMeta, parse_cri_path}
use tributary.Map.Trim.{trim, trim_newlines}

pub data FieldType : Type 0 where
  string integer floating boolean : FieldType

pub data Parser : Type 0 where
  json plain docker_json cri journald winlog : Parser

pub record Timestamp : Type 0 where
  pub field : Option Text
  pub format : Text

-- The part of a source's configuration that mapping reads.
pub record Source : Type 0 where
  pub name : Text
  pub path : Text
  pub table : Text
  pub parser : Parser
  pub timestamp : Timestamp
  pub tags : List Text
  pub tags_static : List (Text × Text)
  pub fields : List (Text × FieldType)
  pub visibility : Option Text
  pub kubernetes : Bool

pub data MapError : Type 0 where
  empty unparseable bad_timestamp : MapError
  uncoercible_field : Text → FieldType → MapError

-- A value of `serde_json`; nulls, arrays and objects are not looked into.
pub data Json (Number Other : Type 0) : Type 0 where
  text : Text → Json Number Other
  number : Number → Json Number Other
  truth : Bool → Json Number Other
  other : Other → Json Number Other

pub record Library (Number Other : Type 0) : Type 0 where
  pub from_str : Text → Option (List (Text × Json Number Other))
  pub to_string : Json Number Other → Text
  pub as_i64 : Number → Option ℤ
  pub as_f64 : Number → Option ℕ
  pub parse_f64 : Text → Option ℕ
  pub parse_rfc3339 : Text → Option ℤ

pub data Result (A : Type 0) : Type 0 where
  ok : A → Result A
  err : MapError → Result A

abbrev pub or_error : {A : Type 0} → MapError → Option A → Result A
or_error e none = err e
or_error e (some a) = ok a

abbrev pub and_then : {A B : Type 0} → Result A → (A → Result B) → Result B
and_then (ok a) f = f a
and_then (err e) f = err e

-- `str::parse::<i64>`: a sign, then digits, within the range.
abbrev positive : Option ℕ → Option ℤ
positive none = none
positive (some n) = if ltb n (2 ^ 63) then some (pos n) else none

abbrev negative : Option ℕ → Option ℤ
negative none = none
negative (some zero) = some (pos 0)
negative (some (suc n)) = if ltb n (2 ^ 63) then some (negsuc n) else none

abbrev unsigned : Text → Option ℕ
unfolding parse_u64
unsigned [] = none
unsigned (c ∷ s) = if c == b'+' then none else parse_u64 (c ∷ s)

unfoldable pub parse_i64 : Text → Option ℤ
unfolding parse_u64 unsigned
parse_i64 [] = none
parse_i64 (c ∷ s) = if c == b'-' then negative (unsigned s) else positive (parse_u64 (c ∷ s))

-- A number of seconds and the like in nanoseconds, as the release build multiplies.
unfoldable pub scale : ℕ → ℤ → ℤ
scale unit (pos n) = wrap_i64 (pos (n * unit))
scale unit (negsuc n) = wrap_i64 (negsuc ((n + 1) * unit - 1))

abbrev scaled : ℕ → Option ℤ → Result ℤ
unfolding scale
scaled unit none = err bad_timestamp
scaled unit (some v) = ok (scale unit v)

abbrev wrapped : Option ℤ → Result ℤ
wrapped none = err bad_timestamp
wrapped (some v) = ok (wrap_i64 v)

-- The texts that stand for a Boolean.
unfoldable pub parse_bool : Text → Option Bool
parse_bool s =
    if text_eq s (codes "true")
      || text_eq s (codes "True")
      || text_eq s (codes "TRUE")
      || text_eq s (codes "t")
      || text_eq s (codes "T")
    then some true
    else if text_eq s (codes "false")
        || text_eq s (codes "False")
        || text_eq s (codes "FALSE")
        || text_eq s (codes "f")
        || text_eq s (codes "F")
    then some false
    else none

abbrev pub map_option : {A B : Type 0} → (A → B) → Option A → Option B
map_option f none = none
map_option f (some a) = some (f a)

-- A `BTreeMap`: an association list in the order of its keys.
unfoldable pub text_lt : Text → Text → Bool
text_lt s [] = false
text_lt [] (d ∷ t) = true
text_lt (c ∷ s) (d ∷ t) =
    let rest = text_lt s t in if ltb c d then true else if c == d then rest else false

unfoldable pub put {ℓ} : {V : Type ℓ} → Text → V → List (Text × V) → List (Text × V)
unfolding text_lt
put k v [] = (k, v) ∷ []
put k v ((j, w) ∷ m) =
    let rest = put k v m in
    if text_eq k j then (k, v) ∷ m else if text_lt k j then (k, v) ∷ (j, w) ∷ m else (j, w) ∷ rest

unfoldable pub collect {ℓ} : {V : Type ℓ} → List (Text × V) → List (Text × V) → List (Text × V)
unfolding put
collect m [] = m
collect m ((k, v) ∷ kvs) = collect (put k v m) kvs

abbrev pub cri_tags : Option CriMeta → List (Text × Text)
cri_tags none = []
cri_tags (some meta) =
    (codes "namespace", meta.namespace)
    ∷ (codes "pod", meta.pod)
    ∷ (codes "container", meta.container)
    ∷ []

unfoldable pub kubernetes_tags : Source → List (Text × Text)
unfolding parse_cri_path
kubernetes_tags src = if src.kubernetes then cri_tags (parse_cri_path src.path) else []

abbrev pub visibility_tags : Option Text → List (Text × Text)
visibility_tags none = []
visibility_tags (some vis) = (codes "_visibility", vis) ∷ []

abbrev key_le : {A : Type 0} → Text × A → Text × A → Bool
unfolding text_lt
key_le (j, a) (k, b) = text_eq j k || text_lt j k

-- A tag that the line has, if its text is not empty.
abbrev pub nonempty : Text → Text → List (Text × Text) → List (Text × Text)
nonempty key [] tags = tags
nonempty key (c ∷ s) tags = (key, c ∷ s) ∷ tags

module _ {Number Other : Type 0} (lib : Library Number Other) where
  abbrev pub Object : Type 0
  Object = List (Text × Json Number Other)

  unfoldable pub parse_timestamp : Text → Text → Result ℤ
  unfolding trim parse_i64 scaled
  parse_timestamp raw format =
      if text_eq format (codes "unix_s")
      then scaled 1_000_000_000 (parse_i64 (trim raw))
      else if text_eq format (codes "unix_ms")
      then scaled 1_000_000 (parse_i64 (trim raw))
      else if text_eq format (codes "unix_us")
      then scaled 1_000 (parse_i64 (trim raw))
      else if text_eq format (codes "unix_ns")
      then or_error bad_timestamp (parse_i64 (trim raw))
      else if text_eq format (codes "rfc3339")
      then wrapped (lib.parse_rfc3339 (trim raw))
      else err bad_timestamp

  -- `as_str` of a string, and the JSON of anything else.
  abbrev pub text_of : Json Number Other → Text
  text_of (text s) = s
  text_of (number n) = lib.to_string (number n)
  text_of (truth b) = lib.to_string (truth b)
  text_of (other o) = lib.to_string (other o)

  unfoldable pub coerced : FieldType → Json Number Other → Option Value
  unfolding trim parse_i64 parse_bool
  coerced string raw = some (str (text_of raw))
  coerced integer (number n) = map_option int (lib.as_i64 n)
  coerced integer (text s) = map_option int (parse_i64 (trim s))
  coerced integer (truth b) = none
  coerced integer (other o) = none
  coerced floating (number n) = map_option float (lib.as_f64 n)
  coerced floating (text s) = map_option float (lib.parse_f64 (trim s))
  coerced floating (truth b) = none
  coerced floating (other o) = none
  coerced boolean (truth b) = some (bool b)
  coerced boolean (text s) = map_option bool (parse_bool (trim s))
  coerced boolean (number n) = none
  coerced boolean (other o) = none

  unfoldable pub coerce : Text → FieldType → Json Number Other → Result Value
  unfolding coerced
  coerce key want raw = or_error (uncoercible_field key want) (coerced want raw)

  abbrev pub promote : Text → Option (Json Number Other) → List (Text × Text) → List (Text × Text)
  promote key none tags = tags
  promote key (some v) tags = nonempty key (text_of v) tags

  unfoldable pub promoted : List Text → Object → List (Text × Text)
  promoted [] parsed = []
  promoted (key ∷ keys) parsed = promote key (lookup key parsed) (promoted keys parsed)

  unfoldable pub all_tags : Source → Object → List (Text × Text)
  unfolding promoted kubernetes_tags
  all_tags src parsed =
      (codes "stream", src.name)
      ∷ (src.tags_static
          ++ (promoted src.tags parsed ++ (visibility_tags src.visibility ++ kubernetes_tags src)))

  abbrev pub add_field :
      Text
      → FieldType
      → Option (Json Number Other)
      → Result (List (Text × Value))
      → Result (List (Text × Value))
  unfolding coerce
  add_field key want none rest = rest
  add_field key want (some raw) rest =
      and_then (coerce key want raw) (λ v. and_then rest (λ fields. ok ((key, v) ∷ fields)))

  unfoldable pub fields_of : List (Text × FieldType) → Object → Result (List (Text × Value))
  unfolding add_field
  fields_of [] parsed = ok []
  fields_of ((key, want) ∷ declared) parsed =
      add_field key want (lookup key parsed) (fields_of declared parsed)

  -- The timestamp is the stamper's to give.
  unfoldable pub recorded : Source → Object → List (Text × Value) → Record
  unfolding all_tags collect key_le
  recorded src parsed fields = record {
    table = src.table;
    tags = collect [] (all_tags src parsed);
    fields = sort_by key_le fields;
    ts_ns = pos 0;
  }

  unfoldable pub build_record : Source → Object → ℤ → Result (Record × ℤ)
  unfolding fields_of recorded
  build_record src parsed source_ts_ns =
      and_then (fields_of src.fields parsed)
        (λ fields. ok (recorded src parsed fields, source_ts_ns))

  unfoldable pub parse_line : Parser → Text → Result Object
  parse_line json line = or_error unparseable (lib.from_str line)
  parse_line docker_json line = or_error unparseable (lib.from_str line)
  parse_line cri line = or_error unparseable (lib.from_str line)
  parse_line journald line = or_error unparseable (lib.from_str line)
  parse_line winlog line = or_error unparseable (lib.from_str line)
  parse_line plain line = ok ((codes "message", text line) ∷ [])

  -- `now` is the clock.
  unfoldable pub source_ts : ℤ → Timestamp → Object → Result ℤ
  unfolding parse_timestamp
  source_ts now ts parsed = elim ts.field [
    | none ↦ ok now
    | some key ↦ elim (lookup key parsed) [
      | none ↦ err bad_timestamp
      | some raw ↦ parse_timestamp (text_of raw) ts.format
    ]
  ]

  unfoldable pub map_line : ℤ → Source → Text → Result (Record × ℤ)
  unfolding trim trim_newlines parse_line source_ts build_record
  map_line now src raw =
      let line = trim_newlines raw in
      elim (trim line) [
        | [] ↦ err empty
        | c ∷ s ↦ and_then (parse_line src.parser line) (λ parsed.
            and_then (source_ts now src.timestamp parsed) (λ ts. build_record src parsed ts))
      ]
