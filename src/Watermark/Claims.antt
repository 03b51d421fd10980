-- ===== src/Watermark/Claims.antt =====
-- What crates/tributary/src/watermark.rs publishes over a history of lines read and batches stored.
use tributary.Prelude.{
  ℕ, suc, ◌+◌, ◌≤◌, ◌<◌, ◌≡◌, refl, List, [], ◌∷◌, Option, none, some, arith, length, length-append,
  length-drop, get_elem?, drop, Bool-cases, inl, inr,
}
use tributary.Prelude.Int.{ℤ, pos, ◌-ℤ◌, ◌≤ℤ◌, -ℤ_parts, ltb_ℤ, leb_ℤ, i64_min, i64_max, i64_sub}
use tributary.Prelude.Sort.{sort_by}
use tributary.Watermark.{
  Watermark, new, restore, observe, advance, estimate, push_sample, or_ceiling, clamp,
  saturating_sub, min_samples, max_ℤ, quantile_index,
}

-- A line is read, or a batch is stored.
pub data Event : Type 0 where
  observed acked : ℤ → Event

unfoldable pub step : Event → Watermark → Watermark
step (observed t) w = observe t w
step (acked t) w = advance t w

unfoldable pub run : List Event → Watermark → Watermark
unfolding step
run [] w = w
run (e ∷ es) w = run es (step e w)

-- Whatever happens, the published value does not fall.
pub published-run_mono :
    (es : List Event) (w : Watermark) → w.published_ns ≤ℤ (run es w).published_ns
unfolding run observe advance
published-run_mono [] w = omega arith
published-run_mono (observed t ∷ es) w = omega (arith, published-run_mono es (observe t w))
published-run_mono (acked t ∷ es) w = ground (arith, published-run_mono es (advance t w))

-- The lateness in use is within the configured range, and so is the range itself.
pub record IsBounded (floor ceiling : ℤ) (w : Watermark) : Type 0 where
  pub floors : w.floor_ns ≡ floor
  pub ceilings : w.ceiling_ns ≡ ceiling
  pub above : floor ≤ℤ w.lateness_ns
  pub below : w.lateness_ns ≤ℤ ceiling

module _ (floor ceiling : ℤ) (ordered : floor ≤ℤ ceiling) where
  or_ceiling_bounds :
      (w : Watermark) (o : Option ℤ)
      → w.floor_ns ≡ floor
      → w.ceiling_ns ≡ ceiling
      → (floor ≤ℤ or_ceiling w o) × (or_ceiling w o ≤ℤ ceiling)
  or_ceiling_bounds w none f c = ground arith
  or_ceiling_bounds w (some t) f c = ground arith

  estimate_bounds :
      (w : Watermark)
      → w.floor_ns ≡ floor
      → w.ceiling_ns ≡ ceiling
      → (floor ≤ℤ estimate w) × (estimate w ≤ℤ ceiling)
  unfolding estimate
  estimate_bounds w f c =
      let v = sort_by leb_ℤ w.samples in
      ground (arith, or_ceiling_bounds w (get_elem? v (quantile_index (length v))) f c)

  step-IsBounded :
      (e : Event) (w : Watermark) → IsBounded floor ceiling w → IsBounded floor ceiling (step e w)
  unfolding step observe advance
  step-IsBounded (observed t) w h = record {
    floors = h.floors;
    ceilings = h.ceilings;
    above = h.above;
    below = h.below;
  }
  step-IsBounded (acked t) w h =
      let (above, below) = estimate_bounds w h.floors h.ceilings in
      record { floors = h.floors; ceilings = h.ceilings; above = above; below = below }

  run-IsBounded :
      (es : List Event) (w : Watermark)
      → IsBounded floor ceiling w
      → IsBounded floor ceiling (run es w)
  unfolding run
  run-IsBounded [] w h = h
  run-IsBounded (e ∷ es) w h = run-IsBounded es (step e w) (step-IsBounded e w h)

-- For any configured floor and ceiling, any restored estimate and any history, the lateness in use
-- lies between the floor and the larger of the two.
pub lateness_bounds :
    (floor ceiling restored : ℤ) (es : List Event)
    → (floor ≤ℤ (run es (restore restored (new floor ceiling))).lateness_ns)
      × ((run es (restore restored (new floor ceiling))).lateness_ns ≤ℤ max_ℤ ceiling floor)
lateness_bounds floor ceiling restored es =
    let start : IsBounded floor (max_ℤ ceiling floor) (restore restored (new floor ceiling)) =
      unfold restore new in ground arith in
    let end =
      run-IsBounded floor (max_ℤ ceiling floor) (ground arith) es
        (restore restored (new floor ceiling)) start in
    (end.above, end.below)

-- The newest source timestamp among the stored batches.
unfoldable pub newest_acked : ℤ → List Event → ℤ
newest_acked t [] = t
newest_acked t (observed _ ∷ es) = newest_acked t es
newest_acked t (acked t' ∷ es) = newest_acked (max_ℤ t t') es

-- The lines that were read.
unfoldable pub observations : List Event → ℕ
observations [] = 0
observations (observed _ ∷ es) = suc (observations es)
observations (acked _ ∷ es) = observations es

-- What is claimed lags the newest stored timestamp by `lag`.
abbrev Lags : ℤ → ℤ → Watermark → Type 0
Lags lag newest w = w.published_ns ≤ℤ saturating_sub newest lag

clamp_mono : (low high a b : ℤ) → low ≤ℤ high → a ≤ℤ b → clamp low high a ≤ℤ clamp low high b
clamp_mono low high a b o h = ground arith

saturating_sub_mono : (a b l m : ℤ) → a ≤ℤ b → m ≤ℤ l → saturating_sub a l ≤ℤ saturating_sub b m
unfolding saturating_sub
saturating_sub_mono a b l m h k =
    clamp_mono i64_min i64_max (a -ℤ l) (b -ℤ m) (omega arith)
      (omega (arith, -ℤ_parts a l, -ℤ_parts b m))

max_ℤ_left : (a b : ℤ) → a ≤ℤ max_ℤ a b
max_ℤ_left a b = ground arith

max_ℤ_right : (a b : ℤ) → b ≤ℤ max_ℤ a b
max_ℤ_right a b = ground arith

le_refl_ℤ : (a : ℤ) → a ≤ℤ a
le_refl_ℤ a = omega arith

advance-Lags :
    (lag newest t : ℤ) (w : Watermark)
    → lag ≤ℤ estimate w
    → Lags lag newest w
    → Lags lag (max_ℤ newest t) (advance t w)
unfolding advance
advance-Lags lag newest t w h l =
    let top = max_ℤ newest t in
    let old = saturating_sub_mono newest top lag lag (max_ℤ_left newest t) (le_refl_ℤ lag) in
    let new = saturating_sub_mono t top (estimate w) lag (max_ℤ_right newest t) h in
    elim (Bool-cases (ltb_ℤ w.published_ns (saturating_sub t (estimate w)))) [
      | inl later ↦ rw later new
      | inr earlier ↦ rw earlier (omega (arith, old, l))
    ]

run-Lags :
    (lag : ℤ) (P : Watermark → ℕ → Type 0)
    → ((w : Watermark) (k : ℕ) → P w k → lag ≤ℤ estimate w)
    → ((w : Watermark) (k : ℕ) (t : ℤ) → P w (suc k) → P (observe t w) k)
    → ((w : Watermark) (k : ℕ) (t : ℤ) → P w k → P (advance t w) k)
    → (es : List Event) (newest : ℤ) (w : Watermark) → P w (observations es)
    → Lags lag newest w
    → Lags lag (newest_acked newest es) (run es w)
unfolding run newest_acked observations
run-Lags lag P low keep keep' [] newest w p l = l
run-Lags lag P low keep keep' (observed t ∷ es) newest w p l =
    run-Lags lag P low keep keep' es newest (observe t w) (keep w (observations es) t p)
      (unfold observe in l)
run-Lags lag P low keep keep' (acked t ∷ es) newest w p l =
    run-Lags lag P low keep keep' es (max_ℤ newest t) (advance t w) (keep' w (observations es) t p)
      (advance-Lags lag newest t w (low w (observations es) p) l)

new-Lags : (floor ceiling lag : ℤ) → Lags lag i64_min (new floor ceiling)
unfolding new saturating_sub
new-Lags floor ceiling lag = ground (arith)

-- For any floor, ceiling and history, what is published lags the newest stored source timestamp by
-- the floor at least.
pub published-le-acked :
    (floor ceiling : ℤ) (es : List Event)
    → (run es (new floor ceiling)).published_ns ≤ℤ saturating_sub (newest_acked i64_min es) floor
published-le-acked floor ceiling es =
    let top = max_ℤ ceiling floor in
    run-Lags floor (λ w k. IsBounded floor top w)
      (λ w k h. (estimate_bounds floor top (ground arith) w h.floors h.ceilings).0)
      (λ w k t h. unfold step in step-IsBounded floor top (ground arith) (observed t) w h)
      (λ w k t h. unfold step in step-IsBounded floor top (ground arith) (acked t) w h) es i64_min
      (new floor ceiling) (unfold new in ground arith) (new-Lags floor ceiling floor)

-- The window will not reach the trusted size within `k` more lines.
abbrev IsCold : ℤ → Watermark → ℕ → Type 0
IsCold ceiling w k = (w.ceiling_ns ≡ ceiling) × (length w.samples + k < min_samples)

length-push_sample :
    (t : ℤ) (samples : List ℤ) → length (push_sample t samples) ≤ suc (length samples)
unfolding push_sample
length-push_sample t samples = ground (
  arith,
  length-append samples (t ∷ []),
  length-append (drop 1 samples) (t ∷ []),
  length-drop 1 samples,
)

-- From a cold start, while fewer lines have been read than make the estimate trusted, the lag is the
-- full ceiling.
pub published_cold :
    (floor ceiling : ℤ) (es : List Event)
    → observations es < min_samples
    → (run es (new floor ceiling)).published_ns
      ≤ℤ saturating_sub (newest_acked i64_min es) (max_ℤ ceiling floor)
unfolding observe
published_cold floor ceiling es few =
    let top = max_ℤ ceiling floor in
    run-Lags top (IsCold top) (λ w k h. unfold estimate in ground arith)
      (λ w k t h. (
        h.0,
        ground (arith, length-push_sample (max_ℤ (i64_sub w.max_ts_seen t) (pos 0)) w.samples),
      ))
      (λ w k t h. unfold advance in h) es i64_min (new floor ceiling)
      (unfold new in (refl, omega arith)) (new-Lags floor ceiling top)
