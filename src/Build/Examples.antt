-- ===== src/Build/Examples.antt =====
-- Two plain lines of one second.
use tributary.Prelude.{
  ℕ, ◌<◌, ◌≡◌, refl, false, List, [], ◌∷◌, none, some, Text, codes, arith, Distinct, lookup,
  strip_prefix, insert, remove, subst, sym, All, length, text_has_eq,
}
use tributary.Prelude.Int.{ℤ, pos, wrap_i64, i64_sub, i64_add, ◌+ℤ◌, ◌-ℤ◌, rem_euclid}
use tributary.Map.{
  Library, Source, string, plain, map_line, parse_line, source_ts, build_record, fields_of,
  recorded, coerce, coerced,
}
use tributary.Map.Trim.{trim, trim_newlines}
use tributary.Stamp
use tributary.Stamp.{
  Resolution, seconds, stamp, stamps, after, tick_of, tick_start, admit, evict, take_slot,
  before_oldest,
}
use tributary.Stamp.Unique.{IsCalm}
use tributary.Transform.{keeps, sample_keeps, has_allow, any_deny, allowed}
use tributary.Watermark
use tributary.Build.{Rules, dropping, build_all}
use tributary.Build.Stamped.{kept_times, Carries, times, build_all-Distinct}

abbrev library : Library ℕ Unit
library = record {
  from_str = λ s. none;
  to_string = λ v. [];
  as_i64 = λ n. some (pos n);
  as_f64 = λ n. none;
  parse_f64 = λ s. none;
  parse_rfc3339 = λ s. none;
}

abbrev source : Source
source = record {
  name = codes "app";
  path = codes "app.log";
  table = codes "logs";
  parser = plain;
  timestamp = record { field = none; format = codes "unix_ns" };
  tags = [];
  tags_static = [];
  fields = (codes "message", string) ∷ [];
  visibility = none;
  kubernetes = false;
}

abbrev rules : Rules
rules = record { filters = []; samples = []; redacts = [] }

abbrev show_float : ℕ → Text
show_float bits = []

abbrev lines : List (ℤ × Text)
lines = (pos 5_000_000_000, codes "a") ∷ (pos 5_000_000_007, codes "b") ∷ []

abbrev watermark : Watermark.Watermark
watermark = Watermark.new (pos 0) (pos 1000)

kept_times-lines :
    kept_times show_float rules library source lines ≡ pos 5_000_000_000 ∷ pos 5_000_000_007 ∷ []
unfolding kept_times map_line parse_line source_ts build_record fields_of recorded coerce coerced
    dropping keeps sample_keeps has_allow any_deny allowed trim trim_newlines lookup strip_prefix
kept_times-lines = refl

kept_times-IsCalm :
    All (IsCalm (tick_of seconds)) (kept_times show_float rules library source lines)
unfolding ◌+ℤ◌ ◌-ℤ◌ tick_of
kept_times-IsCalm =
    subst (All (IsCalm (tick_of seconds))) (sym kept_times-lines)
      ((omega arith, omega arith), ((omega arith, omega arith), tt))

kept_times_few :
    length (after (Stamp.new seconds) (kept_times show_float rules library source lines)).order
    < Stamp.window
unfolding after Stamp.new tick_of stamp tick_start admit evict take_slot before_oldest wrap_i64
    i64_sub i64_add ◌+ℤ◌ ◌-ℤ◌ rem_euclid lookup insert remove
kept_times_few =
    subst (λ xs. length (after (Stamp.new seconds) xs).order < Stamp.window) (sym kept_times-lines)
      (omega arith)

build_all-Distinct_example :
    Carries
      (kept_times show_float rules library source lines)
      (Stamp.new seconds, watermark)
      (build_all show_float rules library source lines (Stamp.new seconds, watermark))
    × Distinct
        (times (build_all show_float rules library source lines (Stamp.new seconds, watermark)).0)
build_all-Distinct_example =
    build_all-Distinct show_float rules library source seconds lines watermark
      (unfold tick_of in omega arith) kept_times-IsCalm kept_times_few
