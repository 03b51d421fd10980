-- ===== src/Map/Examples.antt =====
-- A line of JSON as a record.
use tributary.Prelude.{ℕ, ◌≡◌, refl, false, [], ◌∷◌, none, some, Text, codes, lookup, text_has_eq}
use tributary.Prelude.Int.{pos}
use tributary.Prelude.Sort.{sort_by}
use tributary.Lp.{Record, int}
use tributary.Map.{
  text, number, Library, Source, string, integer, json, ok, Object, build_record, fields_of,
  recorded, all_tags, promoted, kubernetes_tags, collect, put, text_lt, coerce, coerced,
}
use tributary.Map.Order.{IsOrdered}
use tributary.Map.Tags.{tag_value, build_record-tags}

abbrev library : Library ℕ Unit
library = record {
  from_str = λ s. none;
  to_string = λ v. [];
  as_i64 = λ n. some (pos n);
  as_f64 = λ n. none;
  parse_f64 = λ s. none;
  parse_rfc3339 = λ s. none;
}

abbrev source : Source
source = record {
  name = codes "app";
  path = codes "/var/log/app.log";
  table = codes "logs";
  parser = json;
  timestamp = record { field = none; format = codes "unix_ns" };
  tags = codes "level" ∷ codes "host" ∷ [];
  tags_static = (codes "host", codes "a") ∷ [];
  fields = (codes "code", integer) ∷ (codes "gone", string) ∷ [];
  visibility = none;
  kubernetes = false;
}

abbrev parsed : Object library
parsed =
    (codes "code", number 7)
    ∷ (codes "host", text (codes "b"))
    ∷ (codes "level", text (codes "info"))
    ∷ []

abbrev built : Record
built = record {
  table = codes "logs";
  tags =
      (codes "host", codes "b")
      ∷ (codes "level", codes "info")
      ∷ (codes "stream", codes "app")
      ∷ [];
  fields = (codes "code", int (pos 7)) ∷ [];
  ts_ns = pos 0;
}

test_build_record : build_record library source parsed (pos 5) ≡ ok (built, pos 5)
unfolding build_record fields_of recorded all_tags promoted kubernetes_tags collect put text_lt
    coerce coerced sort_by lookup
test_build_record = refl

build_record-tags_example :
    IsOrdered built.tags × ((k : Text) → lookup k built.tags ≡ tag_value library source parsed k)
build_record-tags_example =
    build_record-tags library source parsed (pos 5) built (pos 5) test_build_record
