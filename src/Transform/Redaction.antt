-- ===== src/Transform/Redaction.antt =====
-- `apply_redacts` of crates/tributary/src/transform.rs.
use tributary.Prelude.{◌≡◌, refl, sym, ap, ◌∙◌, List, [], ◌∷◌, Text, if◌then◌else◌, text_eq}
use tributary.Lp.{Value, Record}
use tributary.Transform.{CompiledRedact, scrub, redact_field, redact_fields, apply_redacts}

-- The rules for a field, in their order, on its value.
abbrev pub scrubbed : List CompiledRedact → Text → Value → Value
scrubbed [] k v = v
scrubbed (rd ∷ redacts) k v =
    scrubbed redacts k (if text_eq k rd.field then scrub rd.replace_all v else v)

abbrev pub scrub_all : List CompiledRedact → List (Text × Value) → List (Text × Value)
scrub_all redacts [] = []
scrub_all redacts ((k, v) ∷ fields) = (k, scrubbed redacts k v) ∷ scrub_all redacts fields

scrub_all-nil : (fields : List (Text × Value)) → scrub_all [] fields ≡ fields
scrub_all-nil [] = refl
scrub_all-nil ((k, v) ∷ fields) = ap (◌∷◌ (k, v)) (scrub_all-nil fields)

scrub_all-cons :
    (rd : CompiledRedact) (redacts : List CompiledRedact) (fields : List (Text × Value))
    → scrub_all redacts (redact_fields rd fields) ≡ scrub_all (rd ∷ redacts) fields
unfolding redact_fields redact_field
scrub_all-cons rd redacts [] = refl
scrub_all-cons rd redacts ((k, v) ∷ fields) =
    ap (◌∷◌ (k, scrubbed (rd ∷ redacts) k v)) (scrub_all-cons rd redacts fields)

-- The loop over the rules gives each field, by its own, what the rules that name it make of its value
-- in their order; the fields' names and order, the table, the tags and the timestamp stay.
pub apply_redacts-fields :
    (redacts : List CompiledRedact) (r : Record)
    → apply_redacts redacts r ≡ record r { fields = scrub_all redacts r.fields }
unfolding apply_redacts
apply_redacts-fields [] r = ap (λ fs. record r { fields = fs }) (sym (scrub_all-nil r.fields))
apply_redacts-fields (rd ∷ redacts) r =
    apply_redacts-fields redacts (record r { fields = redact_fields rd r.fields })
    ∙ ap (λ fs. record r { fields = fs }) (scrub_all-cons rd redacts r.fields)
