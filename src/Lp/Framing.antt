-- ===== src/Lp/Framing.antt =====
-- `Record::encode` of crates/tributary/src/lp.rs: the lines that records become.
use tributary.Prelude.{
  ℕ, suc, ◌≡◌, refl, ◌≢◌, ◌↔◌, true, false, List, [], ◌∷◌, ◌++◌, append_assoc, Text, arith, All,
  All-append, IsPrintable, decimal-IsPrintable, ap, ◌∙◌,
}
use tributary.Prelude.Int.{ℤ, pos, negsuc}
use tributary.Lp.{
  Value, str, int, float, bool, Record, ok, err, EncodeError, is_finite, show_int, show_bool,
  esc_key_byte, esc_key, esc_str_byte, esc_body, esc_str, all_finite, encode_tags, encode_value,
  encode_field, encode_more, encode_fields, line_of, encode,
}

abbrev pub IsClean : Text → Type 0
IsClean s = All IsPrintable s

esc_key_byte-IsClean : (c : ℕ) → IsClean (esc_key_byte c)
unfolding esc_key_byte
esc_key_byte-IsClean c = ground arith

esc_key-IsClean : (s : Text) → IsClean (esc_key s)
unfolding esc_key
esc_key-IsClean [] = tt
esc_key-IsClean (c ∷ s) =
    All-append IsPrintable (esc_key_byte c) (esc_key s) (esc_key_byte-IsClean c) (esc_key-IsClean s)

esc_str_byte-IsClean : (c : ℕ) → IsClean (esc_str_byte c)
unfolding esc_str_byte
esc_str_byte-IsClean c = ground arith

esc_body-IsClean : (s : Text) → IsClean (esc_body s)
unfolding esc_body
esc_body-IsClean [] = tt
esc_body-IsClean (c ∷ s) =
    All-append IsPrintable (esc_str_byte c) (esc_body s) (esc_str_byte-IsClean c)
      (esc_body-IsClean s)

show_int-IsClean : (n : ℤ) → IsClean (show_int n)
unfolding show_int
show_int-IsClean (pos n) = decimal-IsPrintable n
show_int-IsClean (negsuc n) = (omega arith, decimal-IsPrintable (suc n))

encode_tags-IsClean : (tags : List (Text × Text)) → IsClean (encode_tags tags)
unfolding encode_tags
encode_tags-IsClean [] = tt
encode_tags-IsClean ((k, v) ∷ tags) = (
  omega arith,
  All-append IsPrintable (esc_key k) _ (esc_key-IsClean k) (
    omega arith,
    All-append IsPrintable (esc_key v) _ (esc_key-IsClean v) (encode_tags-IsClean tags),
  ),
)

module _ (show_float : ℕ → Text) (plain : (bits : ℕ) → IsClean (show_float bits)) where
  encode_value-IsClean : (v : Value) → IsClean (encode_value show_float v)
  unfolding encode_value
  encode_value-IsClean (str s) =
      unfold esc_str in
      (omega arith, All-append IsPrintable (esc_body s) _ (esc_body-IsClean s) (omega arith, tt))
  encode_value-IsClean (int n) =
      All-append IsPrintable (show_int n) _ (show_int-IsClean n) (omega arith, tt)
  encode_value-IsClean (float bits) = plain bits
  encode_value-IsClean (bool true) = unfold show_bool in omega arith
  encode_value-IsClean (bool false) = unfold show_bool in omega arith

  encode_field-IsClean : (f : Text × Value) → IsClean (encode_field show_float f)
  unfolding encode_field
  encode_field-IsClean (k, v) =
      All-append IsPrintable (esc_key k) _ (esc_key-IsClean k) (omega arith, encode_value-IsClean v)

  encode_more-IsClean : (fields : List (Text × Value)) → IsClean (encode_more show_float fields)
  unfolding encode_more
  encode_more-IsClean [] = tt
  encode_more-IsClean (f ∷ fields) = (
    omega arith,
    All-append IsPrintable (encode_field show_float f) _ (encode_field-IsClean f)
        (encode_more-IsClean fields),
  )

  encode_fields-IsClean : (fields : List (Text × Value)) → IsClean (encode_fields show_float fields)
  unfolding encode_fields
  encode_fields-IsClean [] = tt
  encode_fields-IsClean (f ∷ fields) =
      All-append IsPrintable (encode_field show_float f) _ (encode_field-IsClean f)
        (encode_more-IsClean fields)

  -- The line up to its newline.
  abbrev content_of : Record → Text
  content_of r =
      esc_key r.table
      ++ (encode_tags r.tags
          ++ b' ' ∷ (encode_fields show_float r.fields ++ b' ' ∷ show_int r.ts_ns))

  content_of-IsClean : (r : Record) → IsClean (content_of r)
  content_of-IsClean r = All-append IsPrintable (esc_key r.table) _ (esc_key-IsClean r.table) (
      All-append IsPrintable (encode_tags r.tags) _ (encode_tags-IsClean r.tags) (
        omega arith,
        All-append IsPrintable (encode_fields show_float r.fields) _
            (encode_fields-IsClean r.fields) (omega arith, show_int-IsClean r.ts_ns),
      ))

  line_of-content : (r : Record) → line_of show_float r ≡ content_of r ++ 10 ∷ []
  unfolding line_of
  line_of-content r = simp append_assoc

  -- If floats are printed without control characters: whatever an accepted record holds, it adds
  -- exactly one line to the batch, ended by its only newline and without any control character.
  pub encode-one_line :
      (r : Record) (out out' : Text)
      → encode show_float r out ≡ (ok, out')
      → (line : Text) × IsClean line × (out' ≡ out ++ (line ++ 10 ∷ []))
  encode-one_line r out out' e = (content_of r, content_of-IsClean r, written)
    where
      appended : out' ≡ out ++ line_of show_float r
      appended = unfold encode in ground arith

      written : out' ≡ out ++ (content_of r ++ 10 ∷ [])
      written = appended ∙ ap (λ l. out ++ l) (line_of-content r)

abbrev pub IsFinite : Text × Value → Type 0
IsFinite (k, float bits) = is_finite bits ≡ true
IsFinite (k, str s) = Unit
IsFinite (k, int n) = Unit
IsFinite (k, bool b) = Unit

fields-IsFinite : (fields : List (Text × Value)) → all_finite fields ≡ ok → All IsFinite fields
unfolding all_finite
fields-IsFinite [] h = tt
fields-IsFinite ((k, str s) ∷ fields) h = (tt, fields-IsFinite fields h)
fields-IsFinite ((k, int n) ∷ fields) h = (tt, fields-IsFinite fields h)
fields-IsFinite ((k, bool b) ∷ fields) h = (tt, fields-IsFinite fields h)
fields-IsFinite ((k, float bits) ∷ fields) h = (ground arith, fields-IsFinite fields (ground arith))

checked_fields : (fields : List (Text × Value)) → All IsFinite fields → all_finite fields ≡ ok
unfolding all_finite
checked_fields [] h = refl
checked_fields ((k, str s) ∷ fields) h = checked_fields fields h.1
checked_fields ((k, int n) ∷ fields) h = checked_fields fields h.1
checked_fields ((k, bool b) ∷ fields) h = checked_fields fields h.1
checked_fields ((k, float bits) ∷ fields) h = ground (arith, checked_fields fields h.1)

module _ (show_float : ℕ → Text) (r : Record) (out : Text) where
  -- A record is accepted exactly when it has a table's name, a field, and no float that is infinite
  -- or not a number; a refused one writes nothing.
  pub encode-ok_iff :
      (((encode show_float r out).0 ≡ ok)
        ↔ ((r.table ≢ []) × (r.fields ≢ []) × All IsFinite r.fields))
      × ((e : EncodeError)
          → (encode show_float r out).0 ≡ err e
          → (encode show_float r out).1 ≡ out)
  unfolding encode
  encode-ok_iff = (
    (
      λ h. (λ e. ground arith, λ e. ground arith, fields-IsFinite r.fields (ground arith)),
      λ (t, f, a). ground (arith, checked_fields r.fields a),
    ),
    λ e h. ground arith,
  )
