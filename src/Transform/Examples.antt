-- ===== src/Transform/Examples.antt =====
-- Rules on a sample record.
use tributary.Prelude.{◌≡◌, refl, [], ◌∷◌, codes, decimal}
use tributary.Prelude.Int.{pos}
use tributary.Lp.{Record, str, int}
use tributary.Transform.{record_hash, feed_bytes, fnv_byte, fnv_seed}
use tributary.Transform.Decision.{fnv1a, offset_basis, identity, record_hash-eq}

abbrev sample : Record
sample = record {
  table = codes "logs";
  tags = (codes "level", codes "debug") ∷ [];
  fields = (codes "msg", str (codes "token")) ∷ (codes "code", int (pos 500)) ∷ [];
  ts_ns = pos 9;
}

-- A published test vector of FNV-1a.
test_fnv : feed_bytes (codes "a") fnv_seed ≡ 0xaf63dc4c8601ec8c
unfolding feed_bytes fnv_byte
test_fnv = refl

record_hash-eq_example :
    record_hash decimal sample (pos 9) ≡ fnv1a (identity decimal sample (pos 9)) offset_basis
record_hash-eq_example = record_hash-eq decimal sample (pos 9)
