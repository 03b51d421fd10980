-- ===== src/Lp/Examples.antt =====
-- Records encoded, and texts read back.
use tributary.Prelude.{
  ◌≡◌, ◌≢◌, ◌↔◌, refl, [], ◌∷◌, ◌++◌, some, Text, codes, decimal, arith, All, decimal-IsPrintable,
}
use tributary.Prelude.Int.{pos}
use tributary.Lp.{Record, str, int, ok, err, EncodeError, encode, esc_body, esc_key}
use tributary.Lp.Framing.{IsClean, IsFinite, encode-one_line, encode-ok_iff}
use tributary.Lp.Escape.{read_quoted, shown, read_key, read_quoted-esc_body, read_key-control}

abbrev sample : Record
sample = record {
  table = codes "logs";
  tags = (codes "host", codes "a b") ∷ [];
  fields = (codes "line", str (codes "x\ny")) ∷ (codes "n", int (pos 4)) ∷ [];
  ts_ns = pos 9;
}

abbrev bare : Record
bare = record { table = codes "logs"; tags = []; fields = []; ts_ns = pos 9 }

abbrev written : Text
written = codes "logs,host=a\\ b line=\"x\\ny\",n=4i 9\n"

test_encode : encode decimal sample [] ≡ (ok, written)
unfolding encode decimal
test_encode = refl

encode-one_line_example : (line : Text) × IsClean line × (written ≡ [] ++ (line ++ 10 ∷ []))
encode-one_line_example = encode-one_line decimal decimal-IsPrintable sample [] written test_encode

encode-ok_iff_example :
    (((encode decimal bare written).0 ≡ ok)
      ↔ ((bare.table ≢ []) × (bare.fields ≢ []) × All IsFinite bare.fields))
    × ((e : EncodeError)
        → (encode decimal bare written).0 ≡ err e
        → (encode decimal bare written).1 ≡ written)
encode-ok_iff_example = encode-ok_iff decimal bare written

read_quoted-esc_body_example :
    read_quoted (esc_body (codes "a\"\\b\n") ++ 34 ∷ codes " 7")
    ≡ some (shown (codes "a\"\\b\n"), codes " 7")
read_quoted-esc_body_example = read_quoted-esc_body (codes "a\"\\b\n") (codes " 7")

read_key-control_example :
    read_key (esc_key (codes "a\nb") ++ codes "=1") ≡ (codes "a", codes " b=1")
unfolding esc_key
read_key-control_example =
    read_key-control (codes "a") (codes "b") (codes "=1") 10
      (((λ e. omega (arith, e)), omega arith), tt) (omega arith)
