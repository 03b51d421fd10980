-- ===== src/Build.antt =====
-- `build` of crates/tributary/src/main.rs: a line of a source as a record to ship. The stages are those
-- of map.rs, transform.rs, watermark.rs and stamp.rs, in this order. A line goes with the clock's time.
pub mod Stamped
mod Examples
use tributary.Prelude.{
  ℕ, Bool, true, false, not, List, [], ◌∷◌, Option, none, some, Text, if◌then◌else◌,
}
use tributary.Prelude.Int.{ℤ}
use tributary.Lp.{Record}
use tributary.Map.{Library, Source, MapError, empty, Result, ok, err, map_line}
use tributary.Transform.{Filter, Sample, CompiledRedact, keeps, sample_keeps, apply_redacts}
use tributary.Pipeline.{DropStage, filter, sample}
use tributary.Stamp
use tributary.Stamp.{Stamper, StampError}
use tributary.Watermark.{Watermark, observe}

-- The rules that a reload may swap.
pub record Rules : Type 0 where
  pub filters : List Filter
  pub samples : List Sample
  pub redacts : List CompiledRedact

-- `unmapped` and `unstamped` are the errors.
pub data Built : Type 0 where
  ready : Record → ℤ → Built
  blank : Built
  dropped : DropStage → Built
  unmapped : MapError → Built
  unstamped : StampError → Built

-- The stamper and the watermark, which a line moves on.
abbrev pub Clocks : Type 0
Clocks = Stamper × Watermark

abbrev pub with_stamp : Record → ℤ → Stamp.Stamped → Built
with_stamp r source_ts (Stamp.Stamped.ok t) = ready (record r { ts_ns = t }) source_ts
with_stamp r source_ts (Stamp.Stamped.err e) = unstamped e

abbrev pub unbuilt : MapError → Built
unbuilt e = elim e [ empty ↦ blank | other ↦ unmapped other ]

module _ (show_float : ℕ → Text) (rules : Rules) where
  -- Which stage drops the record, if one does.
  unfoldable pub dropping : Record → ℤ → Option DropStage
  unfolding keeps sample_keeps
  dropping r source_ts =
      if not (keeps show_float r rules.filters)
      then some filter
      else if not (sample_keeps show_float r source_ts rules.samples)
      then some sample
      else none

  unfoldable pub drop_or_stamp : Record → ℤ → Clocks → Option DropStage → Built × Clocks
  unfolding apply_redacts observe Stamp.stamp
  drop_or_stamp r source_ts clocks (some stage) = (dropped stage, clocks)
  drop_or_stamp r source_ts (stamper, wm) none =
      let (answer, stamper') = Stamp.stamp stamper source_ts in
      (
        with_stamp (apply_redacts rules.redacts r) source_ts answer,
        (stamper', observe source_ts wm),
      )

  unfoldable pub build_mapped : Result (Record × ℤ) → Clocks → Built × Clocks
  unfolding dropping drop_or_stamp
  build_mapped (err e) clocks = (unbuilt e, clocks)
  build_mapped (ok (r, source_ts)) clocks = drop_or_stamp r source_ts clocks (dropping r source_ts)

  unfoldable pub build :
      {Number Other : Type 0} → Library Number Other → Source → ℤ → Text → Clocks → Built × Clocks
  unfolding map_line build_mapped
  build lib src now line clocks = build_mapped (map_line lib now src line) clocks

module _ (show_float : ℕ → Text) (rules : Rules) {Number Other : Type 0}
    (lib : Library Number Other) (src : Source) where
  abbrev pub with_record : Built → List Record → List Record
  with_record (ready r ts) rs = r ∷ rs
  with_record blank rs = rs
  with_record (dropped stage) rs = rs
  with_record (unmapped e) rs = rs
  with_record (unstamped e) rs = rs

  -- The lines of a source one after the other, with the times at which they are read.
  unfoldable pub build_all : List (ℤ × Text) → Clocks → List Record × Clocks
  unfolding build
  build_all [] clocks = ([], clocks)
  build_all ((now, line) ∷ lines) clocks =
      let (b, clocks₁) = build show_float rules lib src now line clocks in
      let (rs, clocks₂) = build_all lines clocks₁ in (with_record b rs, clocks₂)
