-- ===== src/Lp.antt =====
-- crates/tributary/src/lp.rs: records and their line protocol. Strings are their UTF-8 bytes: the
-- characters that the encoder treats apart are ASCII, so that going by bytes is going by characters.
-- A float is its 64 bits; how the standard library prints one is a parameter.
pub mod Framing
pub mod Escape
mod Examples
use tributary.Prelude.{
  ℕ, suc, ◌+◌, ◌/◌, ◌%◌, ◌^◌, Bool, true, false, not, ◌||◌, List, [], ◌∷◌, ◌++◌, Text, codes,
  decimal, ltb, ◌==◌, if◌then◌else◌,
}
use tributary.Prelude.Int.{ℤ, pos, negsuc}

pub data Value : Type 0 where
  str : Text → Value
  int : ℤ → Value
  float : ℕ → Value
  bool : Bool → Value

pub record Record : Type 0 where
  pub table : Text
  pub tags : List (Text × Text)
  pub fields : List (Text × Value)
  pub ts_ns : ℤ

pub data EncodeError : Type 0 where
  no_fields empty_table : EncodeError
  non_finite : Text → EncodeError

-- The exponent of an infinity or a NaN has all its bits set.
unfoldable pub is_finite : ℕ → Bool
is_finite bits = not (bits / 2 ^ 52 % 2048 == 2047)

unfoldable pub show_int : ℤ → Text
show_int (pos n) = decimal n
show_int (negsuc n) = b'-' ∷ decimal (suc n)

unfoldable pub show_bool : Bool → Text
show_bool true = codes "true"
show_bool false = codes "false"

-- The bytes of one byte in a key, a tag value or a measurement's name.
unfoldable pub esc_key_byte : ℕ → Text
esc_key_byte c =
    if (c == b',') || (c == b'=') || (c == b' ')
    then 92 ∷ c ∷ []
    else if (c == 10) || (c == 13)
    then b' ' ∷ []
    else if ltb c 0x20
    then b' ' ∷ []
    else c ∷ []

unfoldable pub esc_key : Text → Text
unfolding esc_key_byte
esc_key [] = []
esc_key (c ∷ s) = esc_key_byte c ++ esc_key s

-- The bytes of one byte in a quoted string; 34 is the quote and 92 the backslash.
unfoldable pub esc_str_byte : ℕ → Text
esc_str_byte c =
    if (c == 34) || (c == 92)
    then 92 ∷ c ∷ []
    else if c == 10
    then 92 ∷ b'n' ∷ []
    else if c == 13
    then []
    else if ltb c 0x20
    then b' ' ∷ []
    else c ∷ []

unfoldable pub esc_body : Text → Text
unfolding esc_str_byte
esc_body [] = []
esc_body (c ∷ s) = esc_str_byte c ++ esc_body s

unfoldable pub esc_str : Text → Text
unfolding esc_body
esc_str s = 34 ∷ (esc_body s ++ 34 ∷ [])

pub data Checked : Type 0 where
  ok : Checked
  err : EncodeError → Checked

-- Refuse before emitting: the first field that is not finite.
unfoldable pub all_finite : List (Text × Value) → Checked
unfolding is_finite
all_finite [] = ok
all_finite ((k, float bits) ∷ fields) =
    let rest = all_finite fields in if is_finite bits then rest else err (non_finite k)
all_finite ((k, str s) ∷ fields) = all_finite fields
all_finite ((k, int n) ∷ fields) = all_finite fields
all_finite ((k, bool b) ∷ fields) = all_finite fields

abbrev pub is_empty {ℓ} : {A : Type ℓ} → List A → Bool
is_empty [] = true
is_empty (x ∷ xs) = false

unfoldable pub encode_tags : List (Text × Text) → Text
unfolding esc_key
encode_tags [] = []
encode_tags ((k, v) ∷ tags) = b',' ∷ (esc_key k ++ b'=' ∷ (esc_key v ++ encode_tags tags))

module _ (show_float : ℕ → Text) where
  unfoldable pub encode_value : Value → Text
  unfolding esc_str show_int show_bool
  encode_value (str s) = esc_str s
  encode_value (int n) = show_int n ++ b'i' ∷ []
  encode_value (float bits) = show_float bits
  encode_value (bool b) = show_bool b

  unfoldable pub encode_field : Text × Value → Text
  unfolding encode_value esc_key
  encode_field (k, v) = esc_key k ++ b'=' ∷ encode_value v

  -- The fields after the first are each preceded by a comma.
  unfoldable pub encode_more : List (Text × Value) → Text
  unfolding encode_field
  encode_more [] = []
  encode_more (f ∷ fields) = b',' ∷ (encode_field f ++ encode_more fields)

  unfoldable pub encode_fields : List (Text × Value) → Text
  unfolding encode_more
  encode_fields [] = []
  encode_fields (f ∷ fields) = encode_field f ++ encode_more fields

  unfoldable pub line_of : Record → Text
  unfolding encode_fields encode_tags
  line_of r =
      esc_key r.table
      ++ (encode_tags r.tags
          ++ b' ' ∷ (encode_fields r.fields ++ b' ' ∷ (show_int r.ts_ns ++ 10 ∷ [])))

  -- `encode` appends to `out`, and leaves it alone when it refuses.
  unfoldable pub encode : Record → Text → Checked × Text
  unfolding line_of all_finite
  encode r out =
      if is_empty r.table
      then (err empty_table, out)
      else if is_empty r.fields
      then (err no_fields, out)
      else elim (all_finite r.fields) [ err e ↦ (err e, out) | ok ↦ (ok, out ++ line_of r) ]
