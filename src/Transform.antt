-- ===== src/Transform.antt =====
-- crates/tributary/src/transform.rs: filters, samples and redactions of a record. Floats are printed,
-- and matches of a regex replaced, by arguments; a compiled rule is its replacement function.
pub mod Decision
pub mod Redaction
mod Examples
use Prim.Native.Nat.{bit_xor}
use tributary.Prelude.{
  ℕ, zero, suc, ◌+◌, ◌*◌, ◌/◌, ◌%◌, ◌^◌, Bool, true, false, not, ◌&&◌, ◌||◌, List, [], ◌∷◌, ◌++◌,
  Option, none, some, Text, codes, ltb, ◌==◌, if◌then◌else◌, text_eq,
}
use tributary.Prelude.Int.{ℤ, rem_euclid}
use tributary.Lp.{Value, str, int, float, bool, Record, show_int, show_bool}

pub record Filter : Type 0 where
  pub field : Text
  pub equals : Text
  pub drop : Bool

pub record Sample : Type 0 where
  pub field : Option Text
  pub equals : Option Text
  pub rate : ℕ

pub record CompiledRedact : Type 0 where
  pub field : Text
  pub replace_all : Text → Text

-- `Fnv::byte`, `feed_bytes` and `feed`.
unfoldable pub fnv_byte : ℕ → ℕ → ℕ
fnv_byte h b = bit_xor h b * 0x100000001b3 % 2 ^ 64

unfoldable pub feed_bytes : Text → ℕ → ℕ
unfolding fnv_byte
feed_bytes [] h = h
feed_bytes (b ∷ bs) h = feed_bytes bs (fnv_byte h b)

unfoldable pub feed : Text → ℕ → ℕ
unfolding feed_bytes fnv_byte
feed s h = fnv_byte (feed_bytes s h) 0

abbrev pub fnv_seed : ℕ
fnv_seed = 0xcbf29ce484222325

-- `to_le_bytes`: the low bytes first.
unfoldable pub low_bytes : ℕ → ℕ → Text
low_bytes zero n = []
low_bytes (suc k) n = n % 256 ∷ low_bytes k (n / 256)

unfoldable pub to_le_bytes : ℤ → Text
unfolding low_bytes rem_euclid
to_le_bytes ts = low_bytes 8 (rem_euclid ts (2 ^ 64))

unfoldable pub feed_tags : List (Text × Text) → ℕ → ℕ
unfolding feed
feed_tags [] h = h
feed_tags ((k, v) ∷ tags) h = feed_tags tags (feed v (feed k h))

unfoldable pub any_tag : Text → Text → List (Text × Text) → Bool
any_tag field equals [] = false
any_tag field equals ((k, v) ∷ tags) =
    text_eq k field && text_eq v equals || any_tag field equals tags

unfoldable pub has_allow : List Filter → Bool
has_allow [] = false
has_allow (f ∷ filters) = not f.drop || has_allow filters

module _ (show_float : ℕ → Text) where
  -- `to_string` of a value.
  unfoldable pub value_text : Value → Text
  unfolding show_int show_bool
  value_text (str s) = s
  value_text (int n) = show_int n
  value_text (float bits) = show_float bits
  value_text (bool b) = show_bool b

  unfoldable pub value_eq : Value → Text → Bool
  unfolding value_text
  value_eq v s = text_eq (value_text v) s

  unfoldable pub any_field : Text → Text → List (Text × Value) → Bool
  unfolding value_eq
  any_field field equals [] = false
  any_field field equals ((k, v) ∷ fields) =
      text_eq k field && value_eq v equals || any_field field equals fields

  unfoldable pub field_equals : Record → Text → Text → Bool
  unfolding any_field any_tag
  field_equals record_ field equals =
      any_tag field equals record_.tags || any_field field equals record_.fields

  unfoldable pub rule_matches : Record → Filter → Bool
  unfolding field_equals
  rule_matches r f = field_equals r f.field f.equals

  unfoldable pub any_deny : Record → List Filter → Bool
  unfolding rule_matches
  any_deny r [] = false
  any_deny r (f ∷ filters) = f.drop && rule_matches r f || any_deny r filters

  -- The loop over the allow rules, which stops at the first that matches.
  unfoldable pub allowed : Record → List Filter → Bool
  unfolding rule_matches
  allowed r [] = false
  allowed r (f ∷ filters) =
      let rest = allowed r filters in
      if f.drop then rest else if rule_matches r f then true else rest

  unfoldable pub keeps : Record → List Filter → Bool
  unfolding any_deny has_allow allowed
  keeps r [] = true
  keeps r (f ∷ filters) =
      if any_deny r (f ∷ filters)
      then false
      else not (has_allow (f ∷ filters)) || allowed r (f ∷ filters)

  unfoldable pub feed_fields : List (Text × Value) → ℕ → ℕ
  unfolding feed value_text
  feed_fields [] h = h
  feed_fields ((k, v) ∷ fields) h = feed_fields fields (feed (value_text v) (feed k h))

  unfoldable pub record_hash : Record → ℤ → ℕ
  unfolding feed_tags feed_fields feed_bytes to_le_bytes
  record_hash r source_ts =
      feed_bytes (to_le_bytes source_ts) (feed_fields r.fields (feed_tags r.tags fnv_seed))

  -- A rule without a predicate applies to the whole source.
  unfoldable pub applies : Record → Option Text → Option Text → Bool
  unfolding field_equals
  applies r (some f) (some e) = field_equals r f e
  applies r none e = true
  applies r (some f) none = true

  unfoldable pub sample_keeps : Record → ℤ → List Sample → Bool
  unfolding applies record_hash
  sample_keeps r source_ts [] = true
  sample_keeps r source_ts (rule ∷ rules) =
      let rest = sample_keeps r source_ts rules in
      if applies r rule.field rule.equals
        && (ltb 1 rule.rate && not (record_hash r source_ts % rule.rate == 0))
      then false
      else rest

-- One rule on one field, and on the record.
unfoldable pub scrub : (Text → Text) → Value → Value
scrub replace_all (str s) = str (replace_all s)
scrub replace_all (int n) = int n
scrub replace_all (float bits) = float bits
scrub replace_all (bool b) = bool b

unfoldable pub redact_field : CompiledRedact → Text × Value → Text × Value
unfolding scrub
redact_field rd (k, v) = (k, (if text_eq k rd.field then scrub rd.replace_all v else v))

unfoldable pub redact_fields : CompiledRedact → List (Text × Value) → List (Text × Value)
unfolding redact_field
redact_fields rd [] = []
redact_fields rd (f ∷ fields) = redact_field rd f ∷ redact_fields rd fields

unfoldable pub apply_redacts : List CompiledRedact → Record → Record
unfolding redact_fields
apply_redacts [] r = r
apply_redacts (rd ∷ redacts) r =
    apply_redacts redacts (record r { fields = redact_fields rd r.fields })
