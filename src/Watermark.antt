-- ===== src/Watermark.antt =====
-- crates/tributary/src/watermark.rs: the completeness claim of one stream. Times are `i64`. The
-- index of the quantile is computed in scaled integers: for the at most 4096 samples that are kept
-- the floating-point product rounds to the same index.
pub mod Claims
pub mod Quantile
mod Examples
use tributary.Prelude.{
  ℕ, ◌+◌, ◌-◌, ◌*◌, ◌/◌, Bool, true, false, List, [], ◌∷◌, ◌++◌, Option, none, some, ltb, ◌==◌, not,
  ◌&&◌, if◌then◌else◌, length, get_elem?, drop, u64_add,
}
use tributary.Prelude.Int.{ℤ, pos, ◌-ℤ◌, ltb_ℤ, leb_ℤ, eq_ℤ, i64_min, i64_max, i64_sub}
use tributary.Prelude.Sort.{sort_by}

abbrev pub window : ℕ
window = 4096

abbrev pub min_samples : ℕ
min_samples = 256

abbrev pub max_ℤ : ℤ → ℤ → ℤ
max_ℤ a b = if ltb_ℤ a b then b else a

-- `clamp`, for `low` at most `high`.
abbrev pub clamp : ℤ → ℤ → ℤ → ℤ
clamp low high a = if ltb_ℤ a low then low else if ltb_ℤ high a then high else a

-- `i64::saturating_sub`.
unfoldable pub saturating_sub : ℤ → ℤ → ℤ
saturating_sub a b = clamp i64_min i64_max (a -ℤ b)

pub record Watermark : Type 0 where
  pub floor_ns : ℤ
  pub ceiling_ns : ℤ
  pub samples : List ℤ
  pub max_ts_seen : ℤ
  pub lateness_ns : ℤ
  pub published_ns : ℤ
  pub violations : ℕ

unfoldable pub new : ℤ → ℤ → Watermark
new floor_ns ceiling_ns = record {
  floor_ns = floor_ns;
  ceiling_ns = max_ℤ ceiling_ns floor_ns;
  samples = [];
  max_ts_seen = i64_min;
  lateness_ns = max_ℤ ceiling_ns floor_ns;
  published_ns = i64_min;
  violations = 0;
}

unfoldable pub restore : ℤ → Watermark → Watermark
restore lateness_ns w = record w { lateness_ns = clamp w.floor_ns w.ceiling_ns lateness_ns }

-- A full window loses its oldest sample.
unfoldable pub push_sample : ℤ → List ℤ → List ℤ
push_sample lateness samples =
    (if length samples == window then drop 1 samples else samples) ++ lateness ∷ []

unfoldable pub observe : ℤ → Watermark → Watermark
unfolding push_sample
observe source_ts_ns w = record w {
  samples =
      if eq_ℤ w.max_ts_seen i64_min
      then w.samples
      else push_sample (max_ℤ (i64_sub w.max_ts_seen source_ts_ns) (pos 0)) w.samples;
  max_ts_seen = max_ℤ w.max_ts_seen source_ts_ns;
  violations =
      if not (eq_ℤ w.published_ns i64_min) && ltb_ℤ source_ts_ns w.published_ns
      then u64_add w.violations 1
      else w.violations;
}

-- `((len - 1) * 0.999).round()`.
abbrev pub quantile_index : ℕ → ℕ
quantile_index len = ((len - 1) * 999 + 500) / 1000

-- `v[idx]`; the index is always there, so that the ceiling is never the answer of the last branch.
abbrev pub or_ceiling : Watermark → Option ℤ → ℤ
or_ceiling w none = w.ceiling_ns
or_ceiling w (some lateness) = clamp w.floor_ns w.ceiling_ns lateness

unfoldable pub estimate : Watermark → ℤ
estimate w =
    if ltb (length w.samples) min_samples
    then w.ceiling_ns
    else let v = sort_by leb_ℤ w.samples in or_ceiling w (get_elem? v (quantile_index (length v)))

unfoldable pub advance : ℤ → Watermark → Watermark
unfolding estimate
advance acked_max_ts_ns w =
    let lateness = estimate w in
    let candidate = saturating_sub acked_max_ts_ns lateness in
    record w {
      lateness_ns = lateness;
      published_ns = if ltb_ℤ w.published_ns candidate then candidate else w.published_ns;
    }
