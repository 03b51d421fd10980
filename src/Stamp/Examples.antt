-- ===== src/Stamp/Examples.antt =====
-- Runs of the stamper on concrete streams.
use tributary.Prelude.{
  ◌≡◌, refl, ap, List, [], ◌∷◌, some, codes, arith, Distinct, lookup, insert, remove,
}
use tributary.Prelude.Int.{
  ℤ, pos, pos_part, ◌+ℤ◌, ◌-ℤ◌, i64_add, i64_sub, wrap_i64, rem_euclid, int_has_eq,
}
use tributary.Stamp.{
  millis, micros, parse_resolution, new, tick_of, tick_start, stamp, stamps, after, restore,
  checkpoint, evict, admit, take_slot, before_oldest,
}
use tributary.Stamp.Unique.{stamps-new-Distinct}
use tributary.Stamp.Resume.{stamps-restore}

abbrev three : List ℤ
three = pos 1500 ∷ pos 1700 ∷ pos 2500 ∷ []

test_parse : parse_resolution (codes "millis") ≡ some millis
unfolding parse_resolution
test_parse = refl

test_stamps : stamps (new micros) three ≡ pos 1000 ∷ pos 1001 ∷ pos 2000 ∷ []
unfolding stamps after new tick_of stamp tick_start admit evict take_slot before_oldest restore
    checkpoint wrap_i64 i64_sub i64_add ◌+ℤ◌ ◌-ℤ◌ rem_euclid lookup insert remove
test_stamps = refl

stamps-new-Distinct_example : Distinct (stamps (new micros) three)
unfolding stamps after new tick_of stamp tick_start admit evict take_slot before_oldest restore
    checkpoint wrap_i64 i64_sub i64_add ◌+ℤ◌ ◌-ℤ◌ rem_euclid lookup insert remove
stamps-new-Distinct_example =
    stamps-new-Distinct micros three (omega arith)
      ((omega arith, omega arith), ((omega arith, omega arith), ((omega arith, omega arith), tt)))
      (omega arith)

stamps-restore_example :
    stamps (restore (new micros) (pos 2000) (pos 1)) (pos 2600 ∷ pos 3100 ∷ [])
    ≡ stamps (after (new micros) three) (pos 2600 ∷ pos 3100 ∷ [])
unfolding stamps after new tick_of stamp tick_start admit evict take_slot before_oldest restore
    checkpoint wrap_i64 i64_sub i64_add ◌+ℤ◌ ◌-ℤ◌ rem_euclid lookup insert remove
stamps-restore_example =
    stamps-restore micros three (pos 2600 ∷ pos 3100 ∷ []) (pos 1000 ∷ []) (pos 2000) (pos 1)
      (omega arith) refl refl
      (((λ e. omega (arith, ap pos_part e)), tt), (((λ e. omega (arith, ap pos_part e)), tt), tt))
